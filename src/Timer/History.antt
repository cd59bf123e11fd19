-- ===== src/Timer/History.antt =====
-- The timer of src/genlib/timer_thread/timer_thread.c under any interleaving of its callers, the timer
-- thread and `StopTimerThread`: a step is one critical section.
pub mod Fate
use upnpsdk.Prelude.{ℕ, ◌≡◌, Bool, true, Option, none, some, List, [], ◌∷◌, if◌then◌else◌}
use upnpsdk.Prelude.Int.{ℤ}
use upnpsdk.Timer.{
  TimerEvent, Timer, exits, schedules, waits, idle_timer, new_event_of, remove_event,
  schedule_timer_event, remove_timer_event, timer_turn, wait_over, after_wait, stop_begin,
  stop_next, stop_end,
}

-- Where the timer thread stands.
pub data Thread : Type 0 where
  running finished : Thread
  waiting : Option ℤ → Thread

-- Where `StopTimerThread` stands.
pub data Stopper : Type 0 where
  absent stopping stopped : Stopper

-- The timer with its two threads, and what has become of the events, newest first: `fired` by the
-- thread at the time beside them, `called` by `StopTimerThread`.
pub record System : Type 0 where
  pub timer : Timer
  pub thread : Thread
  pub stopper : Stopper
  pub scheduled : List TimerEvent
  pub removed : List TimerEvent
  pub fired : List (ℤ × TimerEvent)
  pub called : List TimerEvent

abbrev pub start : System
start = record {
  timer = idle_timer;
  thread = running;
  stopper = absent;
  scheduled = [];
  removed = [];
  fired = [];
  called = [];
}

-- `ScheduleTimerEvent` in the system.
unfoldable pub do_schedule : Bool → ℤ → ℤ → ℕ → ℕ → System → System
do_schedule ok now timeout callback argument s =
    let (status, id, t) = schedule_timer_event ok now timeout callback argument s.timer in
    elim id [
      | none ↦ record s { timer = t }
      | some i ↦ record s {
        timer = t;
        scheduled = new_event_of s.timer now timeout callback argument ∷ s.scheduled;
      }
    ]

log_option : Option TimerEvent → List TimerEvent → List TimerEvent
log_option none l = l
log_option (some e) l = e ∷ l

-- `RemoveTimerEvent` in the system.
pub do_remove : ℕ → Option ℕ → System → System
unfolding log_option
do_remove id argument s =
    let (found, a, t) = remove_timer_event id argument s.timer in
    record s {
      timer = t;
      removed =
          if found then log_option (remove_event id s.timer.event_q).0 s.removed else s.removed;
    }

-- A round of the timer thread in the system.
unfoldable pub do_turn : Bool → ℤ → System → System
do_turn ok now s =
    let (turn, t) = timer_turn ok now s.timer in
    elim turn [
      | exits ↦ record s { timer = t; thread = finished }
      | schedules e ↦ record s { timer = t; fired = (now, e) ∷ s.fired }
      | waits d ↦ record s { timer = t; thread = waiting d }
    ]

-- The thread's return from the wait in the system.
pub do_wake : System → System
do_wake s =
    let (again, t) = after_wait s.timer in
    record s { timer = t; thread = if again then running else finished }

-- A round of `StopTimerThread` in the system.
pub do_stop : System → System
do_stop s =
    let (next, t) = stop_next s.timer in
    elim next [
      | none ↦ record s { timer = stop_end t; stopper = stopped }
      | some e ↦ record s { timer = t; called = e ∷ s.called }
    ]

pub data Step (s : System) : System → Type 0 where
  schedule :
      (ok : Bool) (now timeout : ℤ) (callback argument : ℕ)
      → Step s (do_schedule ok now timeout callback argument s)
  remove : (id : ℕ) (argument : Option ℕ) → Step s (do_remove id argument s)
  turn : (ok : Bool) (now : ℤ) → s.thread ≡ running → Step s (do_turn ok now s)
  wake :
      (d : Option ℤ) (timed_out : Bool)
      → s.thread ≡ waiting d
      → wait_over d timed_out s.timer ≡ true
      → Step s (do_wake s)
  stop : s.stopper ≡ absent → Step s (record s { timer = stop_begin s.timer; stopper = stopping })
  stop_round : s.stopper ≡ stopping → Step s (do_stop s)

pub data Reach : System → Type 0 where
  here : Reach start
  next : {s u : System} → Reach s → Step s u → Reach u
