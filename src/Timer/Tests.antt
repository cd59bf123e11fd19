-- ===== src/Timer/Tests.antt =====
-- The timer theorems at concrete inputs, and runs of the functions of timer_thread.c.
use upnpsdk.Prelude.{◌≡◌, refl, true, false, none, some, [], ◌∷◌, arith}
use upnpsdk.Prelude.Int.{pos, ◌+ℤ◌}
use upnpsdk.Codes.{Status}
use upnpsdk.Timer.{
  TimerEvent, Timer, insert_event, schedule_timer_event, remove_timer_event, next_event_id,
  new_event_of, waits,
}
use upnpsdk.Timer.Queue.{IsValid, schedule-IsValid, remove-schedule}
use upnpsdk.Timer.Turns.{drain, drain_lem, stop_timer_thread, stop_timer_thread_lem}
use upnpsdk.Timer.History.{Reach, here, next, schedule, turn, start, do_schedule, do_turn}
use upnpsdk.Timer.History.Fate.{IsAccounted, IsOrderly, Reach-IsAccounted, Reach-IsOrderly}

abbrev renewal : TimerEvent
renewal = record { time = pos 100; callback = 1; argument = 7; event_id = 0 }

abbrev advert : TimerEvent
advert = record { time = pos 300; callback = 2; argument = 8; event_id = 1 }

abbrev two_events : Timer
two_events = record {
  new_event = true;
  shutdown = false;
  current_event_id = 2;
  event_q = renewal ∷ advert ∷ [];
}

two_events-IsValid : IsValid two_events
two_events-IsValid = omega arith

-- The identifier after the largest `int` is 0.
next_event_id_wraps : next_event_id 2147483647 ≡ 0
unfolding next_event_id
next_event_id_wraps = refl

schedule_between :
    (schedule_timer_event true (pos 50) (pos 100) 3 9 two_events).2.event_q
    ≡ renewal ∷ record { time = pos 150; callback = 3; argument = 9; event_id = 2 } ∷ advert ∷ []
unfolding schedule_timer_event insert_event new_event_of ◌+ℤ◌ next_event_id
schedule_between = refl

schedule-IsValid_example : IsValid (schedule_timer_event true (pos 50) (pos 100) 3 9 two_events).2
schedule-IsValid_example =
    schedule-IsValid true (pos 50) (pos 100) 3 9 {t = two_events} two_events-IsValid

remove-schedule_example :
    let (status, id, t') = schedule_timer_event true (pos 50) (pos 100) 3 9 two_events in
    (status ≡ Status.success)
    × (id ≡ some 2)
    × (remove_timer_event 2 none t' ≡ (true, some 9, record t' { event_q = renewal ∷ advert ∷ [] }))
remove-schedule_example =
    remove-schedule (pos 50) (pos 100) 3 9 none {t = two_events} two_events-IsValid refl
      (omega arith)

drain_lem_example :
    drain 3 (pos 120) two_events
    ≡ some (record {
      fired = renewal ∷ [];
      last = waits (some (pos 300));
      timer = record two_events { event_q = advert ∷ [] };
    })
drain_lem_example =
    drain_lem 3 (pos 120) two_events (omega arith) refl (ground arith, (ground arith, tt))
      (omega arith)

stop_timer_thread_lem_example :
    (u : Timer) × (stop_timer_thread 3 two_events ≡ some (renewal ∷ advert ∷ [], u))
    × (u.event_q ≡ [])
stop_timer_thread_lem_example =
    let r = stop_timer_thread_lem 3 two_events (omega arith) in (r.0, r.1, r.2)

-- Schedule for time 60, then a round of the thread at time 90.
fired_once : Reach (do_turn true (pos 90) (do_schedule true (pos 50) (pos 10) 3 9 start))
unfolding do_schedule schedule_timer_event insert_event
fired_once =
    next {s = do_schedule true (pos 50) (pos 10) 3 9 start}
      (next here (schedule true (pos 50) (pos 10) 3 9)) (turn true (pos 90) refl)

Reach-IsAccounted_example :
    IsAccounted (do_turn true (pos 90) (do_schedule true (pos 50) (pos 10) 3 9 start))
Reach-IsAccounted_example = Reach-IsAccounted fired_once

Reach-IsOrderly_example :
    IsOrderly (do_turn true (pos 90) (do_schedule true (pos 50) (pos 10) 3 9 start))
Reach-IsOrderly_example = Reach-IsOrderly fired_once
