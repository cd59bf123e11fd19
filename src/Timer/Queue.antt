-- ===== src/Timer/Queue.antt =====
-- The event queue of src/genlib/timer_thread/timer_thread.c: order, identifiers, and what scheduling
-- and removing do to it.
use upnpsdk.Prelude.{
  ℕ, ◌^◌, ◌<◌, ◌≡◌, ◌≢◌, refl, ap, subst, inl, inr, Bool, true, false, Option, none, some, List, [],
  ◌∷◌, ◌++◌, All, arith, if◌then◌else◌, ◌==◌, Bool-cases, Option-cases,
}
use upnpsdk.Prelude.Int.{ℤ, ◌≤ℤ◌, ◌<ℤ◌, ltb_ℤ}
use upnpsdk.Codes.{Status}
use upnpsdk.Timer.{
  TimerEvent, Timer, next_event_id, insert_event, new_event_of, schedule_timer_event, remove_event,
  remove_timer_event, no_event, timer_turn, turn_at, stop_next, stop_at, idle_timer,
}

-- No event is later than one behind it.
abbrev pub IsSorted : List TimerEvent → Type 0
IsSorted [] = Unit {0}
IsSorted (e ∷ q) = All (λ f. e.time ≤ℤ f.time) q × IsSorted q

-- Identifiers are nonnegative as `int`.
abbrev pub HasSmallIds : List TimerEvent → Type 0
HasSmallIds q = All (λ e. e.event_id < 2 ^ 31) q

pub record IsValid (t : Timer) : Type 0 where
  pub sorted : IsSorted t.event_q
  pub small : HasSmallIds t.event_q
  pub next_small : t.current_event_id < 2 ^ 31

All-insert {κ} :
    (P : TimerEvent → Type κ) (e : TimerEvent) (q : List TimerEvent)
    → P e
    → All P q
    → All P (insert_event e q)
unfolding insert_event
All-insert P e [] p h = (p, tt)
All-insert P e (f ∷ q) p h = elim (Bool-cases (ltb_ℤ f.time e.time)) [
  | inl later ↦ rw later (h.0, All-insert P e q p h.1)
  | inr sooner ↦ rw sooner (p, h)
]

All-le_trans :
    (a b : ℤ) (q : List TimerEvent) → a ≤ℤ b → All (λ f. b ≤ℤ f.time) q → All (λ f. a ≤ℤ f.time) q
All-le_trans a b [] h k = tt
All-le_trans a b (f ∷ q) h k = (omega arith, All-le_trans a b q h k.1)

insert_event-IsSorted :
    (e : TimerEvent) (q : List TimerEvent) → IsSorted q → IsSorted (insert_event e q)
unfolding insert_event
insert_event-IsSorted e [] h = (tt, tt)
insert_event-IsSorted e (f ∷ q) h = elim (Bool-cases (ltb_ℤ f.time e.time)) [
  | inl later ↦
      rw later
        (All-insert (λ g. f.time ≤ℤ g.time) e q (ground arith) h.0, insert_event-IsSorted e q h.1)
  | inr sooner ↦
      let le : e.time ≤ℤ f.time = ground arith in
      rw sooner ((le, All-le_trans e.time f.time q le h.0), h)
]

next_event_id-small : (n : ℕ) → next_event_id n < 2 ^ 31
unfolding next_event_id
next_event_id-small n = ground arith

-- `ScheduleTimerEvent` keeps the queue sorted by time and every identifier a nonnegative `int`.
pub schedule-IsValid :
    (ok : Bool) (now timeout : ℤ) (callback argument : ℕ) {t : Timer}
    → IsValid t
    → IsValid (schedule_timer_event ok now timeout callback argument t).2
unfolding schedule_timer_event new_event_of
schedule-IsValid false now timeout callback argument v = v
schedule-IsValid true now timeout callback argument {t} v = ground (
  arith,
  insert_event-IsSorted (new_event_of t now timeout callback argument) t.event_q v.sorted,
  All-insert (λ e. e.event_id < 2 ^ 31) (new_event_of t now timeout callback argument) t.event_q
      v.next_small v.small,
  next_event_id-small t.current_event_id,
)

All-remove {κ} :
    (P : TimerEvent → Type κ) (id : ℕ) (q : List TimerEvent) → All P q → All P (remove_event id q).1
unfolding remove_event
All-remove P id [] h = tt
All-remove P id (e ∷ q) h = elim (Bool-cases (e.event_id == id)) [
  | inl hit ↦ rw hit h.1
  | inr miss ↦ rw miss (h.0, All-remove P id q h.1)
]

remove_event-IsSorted : (id : ℕ) (q : List TimerEvent) → IsSorted q → IsSorted (remove_event id q).1
unfolding remove_event
remove_event-IsSorted id [] h = tt
remove_event-IsSorted id (e ∷ q) h = elim (Bool-cases (e.event_id == id)) [
  | inl hit ↦ rw hit h.1
  | inr miss ↦ rw miss (All-remove (λ f. e.time ≤ℤ f.time) id q h.0, remove_event-IsSorted id q h.1)
]

-- `RemoveTimerEvent` keeps the queue sorted by time and every identifier a nonnegative `int`.
pub remove-IsValid :
    (id : ℕ) (argument : Option ℕ) {t : Timer}
    → IsValid t
    → IsValid (remove_timer_event id argument t).2
unfolding remove_timer_event
remove-IsValid id argument {t} v = elim (Bool-cases (id == no_event)) [
  | inl sentinel ↦ rw sentinel v
  | inr real ↦ elim (Option-cases (remove_event id t.event_q).0) [
    | inl e ↦ rw (real, e) v
    | inr (x, e) ↦
        rw (real, e)
          (record {
            sorted = remove_event-IsSorted id t.event_q v.sorted;
            small = All-remove _ id t.event_q v.small;
            next_small = v.next_small;
          })
  ]
]

tail-IsValid :
    (e : TimerEvent) (q : List TimerEvent) (t : Timer)
    → t.event_q ≡ e ∷ q
    → IsValid t
    → IsValid (record t { event_q = q })
tail-IsValid e q t h v = record {
  sorted = (subst IsSorted h v.sorted).1;
  small = (subst HasSmallIds h v.small).1;
  next_small = v.next_small;
}

turn_at-IsValid :
    (now : ℤ) (q : List TimerEvent) (t : Timer)
    → t.event_q ≡ q
    → IsValid t
    → IsValid (turn_at now q t).1
unfolding turn_at
turn_at-IsValid now [] t e v = v
turn_at-IsValid now (x ∷ q) t e v = ground (arith, tail-IsValid x q t e v)

stop_at-IsValid :
    (q : List TimerEvent) (t : Timer) → t.event_q ≡ q → IsValid t → IsValid (stop_at q t).1
unfolding stop_at
stop_at-IsValid [] t e v = v
stop_at-IsValid (x ∷ q) t e v = tail-IsValid x q t e v

-- A round of the timer thread keeps the queue sorted by time and every identifier a nonnegative `int`.
pub turn-IsValid : (ok : Bool) (now : ℤ) {t : Timer} → IsValid t → IsValid (timer_turn ok now t).1
unfolding timer_turn
turn-IsValid ok now {t} v = ground (arith, turn_at-IsValid now t.event_q t refl v)

-- A round of the loop of `StopTimerThread` keeps the queue sorted by time and every identifier a
-- nonnegative `int`.
pub stop_next-IsValid : {t : Timer} → IsValid t → IsValid (stop_next t).1
unfolding stop_next
stop_next-IsValid {t} v = stop_at-IsValid t.event_q t refl v

pub idle-IsValid : IsValid idle_timer
idle-IsValid = omega arith

-- Where the event goes: behind every earlier event and, in a sorted queue, before all others, so an
-- event is served before those of the same time that were scheduled earlier.
pub insert_event-split :
    (e : TimerEvent) (q : List TimerEvent)
    → IsSorted q
    → (before after : List TimerEvent) × (q ≡ before ++ after)
      × (insert_event e q ≡ before ++ (e ∷ after))
      × All (λ f. f.time <ℤ e.time) before
      × All (λ f. e.time ≤ℤ f.time) after
unfolding insert_event
insert_event-split e [] s = ([], [], refl, refl, tt, tt)
insert_event-split e (f ∷ q) s = elim (Bool-cases (ltb_ℤ f.time e.time)) [
  | inl later ↦
      let (before, after, p, r, lt, le) = insert_event-split e q s.1 in
      rw later (f ∷ before, after, ap (◌∷◌ f) p, ap (◌∷◌ f) r, (ground arith, lt), le)
  | inr sooner ↦
      let first : e.time ≤ℤ f.time = ground arith in
      rw sooner ([], f ∷ q, refl, refl, tt, (first, All-le_trans e.time f.time q first s.0))
]

-- The first event of an identifier that no other carries.
remove-insert :
    (e : TimerEvent) (q : List TimerEvent)
    → All (λ f. f.event_id ≢ e.event_id) q
    → remove_event e.event_id (insert_event e q) ≡ (some e, q)
unfolding remove_event insert_event
remove-insert e [] h = ground arith
remove-insert e (f ∷ q) h = ground (arith, remove-insert e q h.1)

-- After a successful `ScheduleTimerEvent` on a running timer whose queue holds no event of the next
-- identifier, `RemoveTimerEvent` with the identifier that was handed out finds the event, hands its
-- argument back and leaves the queue as it was before.
pub remove-schedule :
    (now timeout : ℤ) (callback argument : ℕ) (old : Option ℕ) {t : Timer}
    → IsValid t
    → t.shutdown ≡ false
    → All (λ f. f.event_id ≢ t.current_event_id) t.event_q
    → let (status, id, t') = schedule_timer_event true now timeout callback argument t in
      (status ≡ Status.success)
      × (id ≡ some t.current_event_id)
      × (remove_timer_event t.current_event_id old t'
          ≡ (true, some argument, record t' { event_q = t.event_q }))
unfolding schedule_timer_event remove_timer_event new_event_of
remove-schedule now timeout callback argument old {t} v up fresh =
    ground (arith, remove-insert (new_event_of t now timeout callback argument) t.event_q fresh)

remove_event_missing :
    (id : ℕ) (q : List TimerEvent) → All (λ f. f.event_id ≢ id) q → remove_event id q ≡ (none, q)
unfolding remove_event
remove_event_missing id [] h = refl
remove_event_missing id (e ∷ q) h = ground (arith, remove_event_missing id q h.1)

-- What is not in the queue is not found: the call returns 0, sets the argument to NULL and changes
-- nothing; and -1 is refused without a look at the queue, the argument left as it was.
pub remove-missing :
    (id : ℕ) (old : Option ℕ) (t : Timer)
    → All (λ f. f.event_id ≢ id) t.event_q
    → remove_timer_event id old t ≡ (false, if id == no_event then old else none, t)
unfolding remove_timer_event
remove-missing id old t h = ground (arith, remove_event_missing id t.event_q h)
