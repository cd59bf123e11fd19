-- ===== src/Timer.antt =====
-- src/genlib/timer_thread/timer_thread.c: the queue of timed callbacks and the thread that serves it.
-- Each critical section of the source (mutex held) is one function on `Timer`; a function that
-- updates `*timer` returns the new timer behind its results. A callback and its argument are
-- numbers that stand for the pointers; the clock is an argument.
mod Tests
pub mod History
pub mod Turns
pub mod Queue
use upnpsdk.Prelude.{
  ℕ, ◌+◌, ◌%◌, ◌^◌, Bool, true, false, not, ◌&&◌, ◌||◌, Option, none, some, List, [], ◌∷◌,
  if◌then◌else◌, leb, ◌==◌,
}
use upnpsdk.Prelude.Int.{ℤ, pos, negsuc, ◌+ℤ◌, ltb_ℤ, leb_ℤ, eqb_ℤ}
use upnpsdk.Codes.{Status}

-- `timer_event`, with the time in seconds. `event_id` is the 32-bit pattern of the `int`.
pub record TimerEvent : Type 0 where
  pub time : ℤ
  pub callback : ℕ
  pub argument : ℕ
  pub event_id : ℕ

-- `timer_thread_struct`; the mutex and the condition variable have no state of their own here.
pub record Timer : Type 0 where
  pub new_event : Bool
  pub shutdown : Bool
  pub current_event_id : ℕ
  pub event_q : List TimerEvent

-- The fields as `InitTimerThread` sets them.
abbrev pub idle_timer : Timer
idle_timer = record { new_event = false; shutdown = false; current_event_id = 0; event_q = [] }

-- `tpool_ok` says whether `tpool_Schedule` took the thread.
pub init_timer_thread : Bool → Status × Timer
init_timer_thread tpool_ok = (if tpool_ok then Status.success else Status.init_failed, idle_timer)

-- `currentEventId++` on an `int`, and the reset to 0 when the sign bit came up.
pub next_event_id : ℕ → ℕ
next_event_id n = let m = (n + 1) % 2 ^ 32 in if leb (2 ^ 31) m then 0 else m

-- The walk with `prev` and `finger`: past every event that is strictly earlier.
pub insert_event : TimerEvent → List TimerEvent → List TimerEvent
insert_event e [] = e ∷ []
insert_event e (f ∷ q) = if ltb_ℤ f.time e.time then f ∷ insert_event e q else e ∷ f ∷ q

-- The event that `ScheduleTimerEvent` builds, with the time read before the lock is taken.
pub new_event_of : Timer → ℤ → ℤ → ℕ → ℕ → TimerEvent
new_event_of t now timeout callback argument = record {
  time = now +ℤ timeout;
  callback = callback;
  argument = argument;
  event_id = t.current_event_id;
}

-- `alloc_ok` is the outcome of `malloc`; the option is what goes through `eventId`.
pub schedule_timer_event : Bool → ℤ → ℤ → ℕ → ℕ → Timer → Status × Option ℕ × Timer
schedule_timer_event alloc_ok now timeout callback argument t =
    if not alloc_ok
    then (Status.outof_memory, none, t)
    else if t.shutdown
    then (Status.invalid_param, none, t)
    else (
      Status.success,
      some t.current_event_id,
      record t {
        new_event = true;
        current_event_id = next_event_id t.current_event_id;
        event_q = insert_event (new_event_of t now timeout callback argument) t.event_q;
      },
    )

-- The search of `RemoveTimerEvent` with the unlinking of what it finds.
pub remove_event : ℕ → List TimerEvent → Option TimerEvent × List TimerEvent
remove_event id [] = (none, [])
remove_event id (e ∷ q) =
    let (found, rest) = remove_event id q in
    if e.event_id == id then (some e, q) else (found, e ∷ rest)

-- The pattern of -1.
abbrev pub no_event : ℕ
no_event = 4294967295

-- The first option is `*argument` before the call (`none` is NULL), the second is `*argument` after.
pub remove_timer_event : ℕ → Option ℕ → Timer → Bool × Option ℕ × Timer
remove_timer_event id argument t =
    let (found, rest) = remove_event id t.event_q in
    if id == no_event then (false, argument, t) else elim found [
      | none ↦ (false, none, t)
      | some e ↦ (true, some e.argument, record t { event_q = rest })
    ]

-- How one round of the loop in `TimerThread` ends.
pub data Turn : Type 0 where
  -- returns
  exits : Turn
  -- hands a callback and its argument to the thread pool, and goes round
  schedules : TimerEvent → Turn
  -- waits on the condition, until the time if there is one
  waits : Option ℤ → Turn

-- From the reading of the queue on. The sentinel -1 stands for "no event".
turn_at : ℤ → List TimerEvent → Timer → Turn × Timer
turn_at now [] t = (Turn.waits none, t)
turn_at now (e ∷ q) t =
    if eqb_ℤ e.time (negsuc 0)
    then (Turn.waits none, t)
    else if leb_ℤ e.time now
    then (Turn.schedules e, record t { event_q = q })
    else (Turn.waits (some e.time), t)

-- One round, up to the wait. `lock_ok` says that `pthread_mutex_lock` returned 0.
pub timer_turn : Bool → ℤ → Timer → Turn × Timer
unfolding turn_at
timer_turn lock_ok now t =
    if not lock_ok || t.shutdown then (Turn.exits, t) else turn_at now t.event_q t

-- The loop round the wait ends when `newEvent` is set, or, with a deadline, by ETIMEDOUT.
pub wait_over : Option ℤ → Bool → Timer → Bool
wait_over none timed_out t = t.new_event
wait_over (some d) timed_out t = t.new_event || timed_out

-- After the wait: `true` goes round again, `false` returns.
pub after_wait : Timer → Bool × Timer
after_wait t = if t.shutdown then (false, t) else (true, record t { new_event = false })

-- The first critical section of `StopTimerThread`.
pub stop_begin : Timer → Timer
stop_begin t = record t { shutdown = true }

-- One round of its loop: the event whose callback is called, or `none` when the queue is empty.
stop_at : List TimerEvent → Timer → Option TimerEvent × Timer
stop_at [] t = (none, t)
stop_at (e ∷ q) t = (some e, record t { event_q = q })

pub stop_next : Timer → Option TimerEvent × Timer
unfolding stop_at
stop_next t = stop_at t.event_q t

-- The signal to the thread behind the loop.
pub stop_end : Timer → Timer
stop_end t = record t { new_event = true }
