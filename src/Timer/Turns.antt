-- ===== src/Timer/Turns.antt =====
-- Rounds of `TimerThread` in src/genlib/timer_thread/timer_thread.c: what is handed to the thread
-- pool, and when the thread waits.
use upnpsdk.Prelude.{
  ℕ, zero, suc, ◌<◌, ◌≡◌, ◌≢◌, refl, Bool, true, false, Option, none, some, List, [], ◌∷◌, length,
  filter, All, arith, if◌then◌else◌, Bool-cases, inl, inr,
}
use upnpsdk.Prelude.Int.{ℤ, negsuc, ◌≤ℤ◌, ◌<ℤ◌, leb_ℤ, ltb_ℤ}
use upnpsdk.Timer.{
  TimerEvent, Timer, Turn, exits, schedules, waits, timer_turn, turn_at, wait_over, after_wait,
  stop_begin, stop_next, stop_at, stop_end, schedule_timer_event,
}
use upnpsdk.Codes.{Status}
use upnpsdk.Timer.Queue.{IsSorted}

-- What the thread has done when it comes to its next wait or returns: the events handed over, in
-- order, the last turn and the timer.
pub record Drained : Type 0 where
  pub fired : List TimerEvent
  pub last : Turn
  pub timer : Timer

-- The rounds of the thread up to its next wait, while the clock shows `now` and nobody else takes
-- the mutex. `none` is fuel that ran out.
pub drain : ℕ → ℤ → Timer → Option Drained
drain zero now t = none
drain (suc fuel) now t =
    let (turn, t') = timer_turn true now t in
    elim turn [
      | schedules e ↦ elim (drain fuel now t') [
        | none ↦ none
        | some d ↦ some (record d { fired = e ∷ d.fired })
      ]
      | exits ↦ some (record { fired = []; last = exits; timer = t' })
      | waits d ↦ some (record { fired = []; last = waits d; timer = t' })
    ]

-- No event carries the time -1, the sentinel of the thread.
abbrev pub HasRealTimes : List TimerEvent → Type 0
HasRealTimes q = All (λ e. e.time ≢ negsuc 0) q

-- The deadline of the wait: the time of the first event that is left.
abbrev pub deadline : List TimerEvent → Option ℤ
deadline [] = none
deadline (e ∷ q) = some e.time

-- The longest prefix of the queue that is due, and the rest.
pub due_prefix : ℤ → List TimerEvent → List TimerEvent × List TimerEvent
due_prefix now [] = ([], [])
due_prefix now (e ∷ q) =
    let (due, rest) = due_prefix now q in if leb_ℤ e.time now then (e ∷ due, rest) else ([], e ∷ q)

drain_queue :
    (q : List TimerEvent) (fuel : ℕ) (now : ℤ) (t : Timer)
    → t.event_q ≡ q
    → t.shutdown ≡ false
    → HasRealTimes q
    → length q < fuel
    → drain fuel now t
      ≡ some (record {
        fired = (due_prefix now q).0;
        last = waits (deadline (due_prefix now q).1);
        timer = record t { event_q = (due_prefix now q).1 };
      })
unfolding drain timer_turn turn_at due_prefix
drain_queue q zero now t e up real enough = absurd (omega arith)
drain_queue [] (suc fuel) now t e up real enough = ground arith
drain_queue (x ∷ q) (suc fuel) now t e up real enough =
    ground (arith, drain_queue q fuel now (record t { event_q = q }) refl up real.1 (omega arith))

abbrev pub is_due : ℤ → TimerEvent → Bool
is_due now e = leb_ℤ e.time now

abbrev pub is_late : ℤ → TimerEvent → Bool
is_late now e = ltb_ℤ now e.time

filter-late :
    (now : ℤ) (q : List TimerEvent)
    → All (λ e. now <ℤ e.time) q
    → (filter (is_due now) q ≡ []) × (filter (is_late now) q ≡ q)
filter-late now [] h = (refl, refl)
filter-late now (e ∷ q) h = ground (arith, filter-late now q h.1)

All-lt_of_le :
    (now a : ℤ) (q : List TimerEvent)
    → now <ℤ a
    → All (λ e. a ≤ℤ e.time) q
    → All (λ e. now <ℤ e.time) q
All-lt_of_le now a [] h k = tt
All-lt_of_le now a (e ∷ q) h k = (omega arith, All-lt_of_le now a q h k.1)

due_prefix-filter :
    (now : ℤ) (q : List TimerEvent)
    → IsSorted q
    → due_prefix now q ≡ (filter (is_due now) q, filter (is_late now) q)
unfolding due_prefix
due_prefix-filter now [] s = refl
due_prefix-filter now (e ∷ q) s = elim (Bool-cases (leb_ℤ e.time now)) [
  | inl due ↦ ground (arith, due_prefix-filter now q s.1)
  | inr late ↦
      let after : now <ℤ e.time = ground arith in
      ground (arith, filter-late now q (All-lt_of_le now e.time q after s.0))
]

-- On a running timer whose queue is sorted and holds no event of time -1, more rounds than there are
-- events bring the thread to its next wait: by then it has handed over every due event and no other,
-- in queue order, the later events are all that is left, and it waits for the first of them, or
-- without a deadline if there is none.
pub drain_lem :
    (fuel : ℕ) (now : ℤ) (t : Timer)
    → IsSorted t.event_q
    → t.shutdown ≡ false
    → HasRealTimes t.event_q
    → length t.event_q < fuel
    → drain fuel now t
      ≡ some (record {
        fired = filter (is_due now) t.event_q;
        last = waits (deadline (filter (is_late now) t.event_q));
        timer = record t { event_q = filter (is_late now) t.event_q };
      })
drain_lem fuel now t s up real enough =
    ground (
      arith,
      drain_queue t.event_q fuel now t refl up real enough,
      due_prefix-filter now t.event_q s,
    )

-- The calls that the loop of `StopTimerThread` makes, and the timer when it ends.
pub stop_calls : ℕ → Timer → Option (List TimerEvent × Timer)
stop_calls zero t = none
stop_calls (suc fuel) t =
    let (next, t') = stop_next t in
    elim next [
      | none ↦ some ([], t')
      | some e ↦ elim (stop_calls fuel t') [ none ↦ none | some (es, u) ↦ some (e ∷ es, u) ]
    ]

-- `StopTimerThread` with nobody else at the mutex between its rounds.
pub stop_timer_thread : ℕ → Timer → Option (List TimerEvent × Timer)
stop_timer_thread fuel t = elim (stop_calls fuel (stop_begin t)) [
  | none ↦ none
  | some (es, u) ↦ some (es, stop_end u)
]

stop_queue :
    (q : List TimerEvent) (fuel : ℕ) (t : Timer)
    → t.event_q ≡ q
    → length q < fuel
    → stop_calls fuel t ≡ some (q, record t { event_q = [] })
unfolding stop_calls stop_next stop_at
stop_queue q zero t e enough = absurd (omega arith)
stop_queue [] (suc fuel) t e enough = ground arith
stop_queue (x ∷ q) (suc fuel) t e enough =
    ground (arith, stop_queue q fuel (record t { event_q = q }) refl (omega arith))

-- What the timer thread does on a timer that is shut down and signalled.
shutdown_turn :
    (t : Timer) (ok timed_out : Bool) (now : ℤ) (d : Option ℤ)
    → t.shutdown ≡ true
    → t.new_event ≡ true
    → (timer_turn ok now t ≡ (exits, t))
      × (wait_over d timed_out t ≡ true)
      × (after_wait t ≡ (false, t))
unfolding timer_turn wait_over after_wait
shutdown_turn t ok timed_out now none down signal = ground arith
shutdown_turn t ok timed_out now (some d) down signal = ground arith

-- With more rounds than there are events `StopTimerThread` calls every queued callback once, in
-- queue order; it leaves an empty queue on which scheduling is refused with UPNP_E_INVALID_PARAM, and
-- the next round of the timer thread returns.
pub stop_timer_thread_lem :
    (fuel : ℕ) (t : Timer)
    → length t.event_q < fuel
    → (u : Timer) × (stop_timer_thread fuel t ≡ some (t.event_q, u))
      × (u.event_q ≡ [])
      × ((now timeout : ℤ) (callback argument : ℕ)
          → schedule_timer_event true now timeout callback argument u
            ≡ (Status.invalid_param, none, u))
      × ((ok timed_out : Bool) (now : ℤ) (d : Option ℤ)
          → (timer_turn ok now u ≡ (exits, u))
            × (wait_over d timed_out u ≡ true)
            × (after_wait u ≡ (false, u)))
unfolding stop_timer_thread stop_begin stop_end schedule_timer_event
stop_timer_thread_lem fuel t enough =
    let u : Timer = record t { event_q = []; shutdown = true; new_event = true } in
    (
      u,
      ground (arith, stop_queue t.event_q fuel (record t { shutdown = true }) refl enough),
      refl,
      λ now timeout callback argument. refl,
      λ ok timed_out now d. shutdown_turn u ok timed_out now d refl refl,
    )
