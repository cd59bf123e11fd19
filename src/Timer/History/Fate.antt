-- ===== src/Timer/History/Fate.antt =====
-- What every history of the timer of src/genlib/timer_thread/timer_thread.c preserves.
use upnpsdk.Prelude.{
  ℕ, ◌+◌, ◌≡◌, refl, Bool, true, false, Option, none, some, List, [], ◌∷◌, All, arith,
  if◌then◌else◌,
}
use upnpsdk.Prelude.Int.{ℤ, ◌≤ℤ◌}
use upnpsdk.Timer.{
  TimerEvent, insert_event, remove_event, new_event_of, stop_next, schedule_timer_event,
  remove_timer_event, timer_turn, turn_at, after_wait, stop_begin, stop_at, stop_end,
}
use upnpsdk.Timer.Queue.{
  IsValid, schedule-IsValid, remove-IsValid, turn-IsValid, stop_next-IsValid, idle-IsValid,
}
use upnpsdk.Timer.History.{
  System, Stopper, absent, stopping, stopped, Step, Reach, here, next, schedule, remove, turn, wake,
  stop, stop_round, do_schedule, do_remove, do_turn, do_wake, do_stop,
}

-- How many events of the list pass the test.
abbrev pub count {ℓ} : {A : Type ℓ} → (A → Bool) → List A → ℕ
count p [] = 0
count p (e ∷ q) = (if p e then 1 else 0) + count p q

abbrev count_option : (TimerEvent → Bool) → Option TimerEvent → ℕ
count_option p none = 0
count_option p (some e) = if p e then 1 else 0

count-insert :
    (p : TimerEvent → Bool) (e : TimerEvent) (q : List TimerEvent)
    → count p (insert_event e q) ≡ (if p e then 1 else 0) + count p q
unfolding insert_event
count-insert p e [] = refl
count-insert p e (f ∷ q) = ground (arith, count-insert p e q)

count-remove :
    (p : TimerEvent → Bool) (id : ℕ) (q : List TimerEvent)
    → count p (remove_event id q).1 + count_option p (remove_event id q).0 ≡ count p q
unfolding remove_event
count-remove p id [] = refl
count-remove p id (e ∷ q) = ground (arith, count-remove p id q)

-- Every event that was scheduled is in exactly one place, as often: for each test on events, those
-- scheduled are those still queued, removed, fired and called together.
abbrev pub IsAccounted : System → Type 0
IsAccounted s =
    (p : TimerEvent → Bool)
    → count p s.scheduled
      ≡ count p s.timer.event_q + count p s.removed + count (λ f. p f.1) s.fired + count p s.called

schedule-IsAccounted :
    (ok : Bool) (now timeout : ℤ) (callback argument : ℕ) (s : System)
    → IsAccounted s
    → IsAccounted (do_schedule ok now timeout callback argument s)
unfolding do_schedule schedule_timer_event
schedule-IsAccounted ok now timeout callback argument s h p = ground (
  arith,
  h p,
  count-insert p (new_event_of s.timer now timeout callback argument) s.timer.event_q,
)

remove-IsAccounted :
    (id : ℕ) (argument : Option ℕ) (s : System)
    → IsAccounted s
    → IsAccounted (do_remove id argument s)
unfolding do_remove remove_timer_event
remove-IsAccounted id argument s h p = ground (arith, h p, count-remove p id s.timer.event_q)

turn_at-IsAccounted :
    (q : List TimerEvent) (ok : Bool) (now : ℤ) (s : System)
    → s.timer.event_q ≡ q
    → IsAccounted s
    → IsAccounted (do_turn ok now s)
unfolding do_turn timer_turn turn_at
turn_at-IsAccounted [] ok now s e h p = ground (arith, h p)
turn_at-IsAccounted (x ∷ q) ok now s e h p = ground (arith, h p)

stop_at-IsAccounted :
    (q : List TimerEvent) (s : System)
    → s.timer.event_q ≡ q
    → IsAccounted s
    → IsAccounted (do_stop s)
unfolding do_stop stop_next stop_at stop_end
stop_at-IsAccounted [] s e h p = ground (arith, h p)
stop_at-IsAccounted (x ∷ q) s e h p = ground (arith, h p)

Step-IsAccounted : {s u : System} → Step s u → IsAccounted s → IsAccounted u
unfolding do_wake after_wait stop_begin
Step-IsAccounted {s} (schedule ok now timeout callback argument) h =
    schedule-IsAccounted ok now timeout callback argument s h
Step-IsAccounted {s} (remove id argument) h = remove-IsAccounted id argument s h
Step-IsAccounted {s} (turn ok now _) h = turn_at-IsAccounted s.timer.event_q ok now s refl h
Step-IsAccounted {s} (wake d timed_out _ _) h = λ p. ground (arith, h p)
Step-IsAccounted {s} (stop _) h = h
Step-IsAccounted {s} (stop_round _) h = stop_at-IsAccounted s.timer.event_q s refl h

-- In every history the events scheduled so far are, as often as they were scheduled, those still in
-- the queue, those removed, those the timer thread handed over and those `StopTimerThread` called:
-- none is lost and none runs twice.
pub Reach-IsAccounted : {s : System} → Reach s → IsAccounted s
Reach-IsAccounted here = λ p. refl
Reach-IsAccounted (next r st) = Step-IsAccounted st (Reach-IsAccounted r)

abbrev pub is_flagged : Stopper → Bool
is_flagged absent = false
is_flagged _ = true

-- What holds beside the accounts.
pub record IsOrderly (s : System) : Type 0 where
  -- the queue is sorted, the identifiers are in range
  pub valid : IsValid s.timer
  -- the thread fired nothing before its time
  pub punctual : All (λ f. f.1.time ≤ℤ f.0) s.fired
  -- the flag is up from the start of `StopTimerThread` on
  pub flagged : s.timer.shutdown ≡ is_flagged s.stopper
  -- after it the queue is empty
  pub emptied : s.stopper ≡ stopped → s.timer.event_q ≡ []

schedule-IsOrderly :
    (ok : Bool) (now timeout : ℤ) (callback argument : ℕ) {s : System}
    → IsOrderly s
    → IsOrderly (do_schedule ok now timeout callback argument s)
unfolding do_schedule schedule_timer_event
schedule-IsOrderly ok now timeout callback argument {s} v =
    ground (arith, schedule-IsValid ok now timeout callback argument v.valid)

remove-IsOrderly :
    (id : ℕ) (argument : Option ℕ) {s : System} → IsOrderly s → IsOrderly (do_remove id argument s)
unfolding do_remove remove_timer_event remove_event
remove-IsOrderly id argument {s} v = ground (arith, remove-IsValid id argument v.valid)

turn_at-IsOrderly :
    (q : List TimerEvent) (ok : Bool) (now : ℤ) {s : System}
    → s.timer.event_q ≡ q
    → IsOrderly s
    → IsOrderly (do_turn ok now s)
unfolding do_turn timer_turn turn_at
turn_at-IsOrderly [] ok now {s} e v = ground (arith, turn-IsValid ok now v.valid)
turn_at-IsOrderly (x ∷ q) ok now {s} e v = ground (arith, turn-IsValid ok now v.valid)

stop_at-IsOrderly :
    (q : List TimerEvent) {s : System}
    → s.timer.event_q ≡ q
    → s.stopper ≡ stopping
    → IsOrderly s
    → IsOrderly (do_stop s)
unfolding do_stop stop_next stop_at stop_end
stop_at-IsOrderly [] {s} e h v = ground (arith, stop_next-IsValid v.valid)
stop_at-IsOrderly (x ∷ q) {s} e h v = ground (arith, stop_next-IsValid v.valid)

Step-IsOrderly : {s u : System} → Step s u → IsOrderly s → IsOrderly u
unfolding do_wake after_wait stop_begin
Step-IsOrderly (schedule ok now timeout callback argument) v =
    schedule-IsOrderly ok now timeout callback argument v
Step-IsOrderly (remove id argument) v = remove-IsOrderly id argument v
Step-IsOrderly {s} (turn ok now _) v = turn_at-IsOrderly s.timer.event_q ok now refl v
Step-IsOrderly {s} (wake d timed_out _ _) v = ground arith
Step-IsOrderly {s} (stop h) v = ground arith
Step-IsOrderly {s} (stop_round h) v = stop_at-IsOrderly s.timer.event_q refl h v

-- In every history the queue is sorted by time, the timer thread handed over no event before its
-- time, the shutdown flag is up exactly from the start of `StopTimerThread` on, and once that has
-- returned the queue is empty.
pub Reach-IsOrderly : {s : System} → Reach s → IsOrderly s
Reach-IsOrderly here = record {
  valid = idle-IsValid;
  punctual = tt;
  flagged = refl;
  emptied = λ e. refl;
}
Reach-IsOrderly (next r st) = Step-IsOrderly st (Reach-IsOrderly r)
