-- ===== src/Gena/Order/Tests.antt =====
-- The theorems on the events of a subscription of src/gena/gena_server.c at two events, of which the first
-- is being sent.
use upnpsdk.Prelude.{ℕ, ◌+◌, ◌≤◌, ◌≡◌, refl, true, [], arith, length, bytes}
use upnpsdk.Prelude.Int.{pos, ◌+ℤ◌}
use upnpsdk.ServiceTable.{Subscription, copy_subscription}
use upnpsdk.Gena.Thread.{start_found}
use upnpsdk.Gena.Order.{Channel, sending, Step, Steps, fresh, do_issue, do_start, do_lose}
use upnpsdk.Gena.Order.Invariant.{downs}
use upnpsdk.Gena.Order.Serial.{serial}
use upnpsdk.Gena.Order.Lost.{lost-silent}

abbrev kept : Subscription
kept = record {
  sid = bytes "k";
  event_key = pos 0;
  to_send_event_key = pos 0;
  expire_time = pos 0;
  active = true;
  delivery_urls = record { urls = bytes "<>"; parsed_urls = [] };
}

abbrev one : Channel
one = do_issue (fresh kept)

abbrev two : Channel
two = do_issue one

abbrev running : Channel
running = do_start 0 two

to_one : Steps (fresh kept) one
to_one =
    Steps.then (fresh kept) (fresh kept) one (Steps.stay (fresh kept))
      (Step.issues (fresh kept) (omega arith))

to_two : Steps (fresh kept) two
to_two = Steps.then (fresh kept) one two to_one (Step.issues one (omega arith))

to_running : Steps (fresh kept) running
unfolding start_found copy_subscription ◌+ℤ◌
to_running =
    Steps.then (fresh kept) two running to_two
      (Step.starts two 0 (record kept { event_key = pos 2 }) refl refl)

serial_example :
    ((m n : ℕ) → running.phase m ≡ sending → running.phase n ≡ sending → m ≡ n)
    × (running.begun ≡ downs (length running.begun))
    × (running.done ≤ length running.begun)
    × (length running.begun ≤ running.done + 1)
serial_example = serial kept running to_running

-- The first job is lost, and a third event is issued.
lost-silent_example :
    ((do_issue (do_lose 0 two)).begun ≡ two.begun) × ((do_issue (do_lose 0 two)).done ≡ two.done)
lost-silent_example = lost-silent kept two (do_issue (do_lose 0 two)) to_two refl (
    Steps.then (do_lose 0 two) (do_lose 0 two) (do_issue (do_lose 0 two))
      (Steps.stay (do_lose 0 two)) (Step.issues (do_lose 0 two) (omega arith)))
