-- ===== src/ClientTable/Tests.antt =====
-- Runs of the functions of src/genlib/client_table/client_table.c on two subscriptions.
use upnpsdk.Prelude.{str_eq, ◌≡◌, refl, true, false, none, [], ◌∷◌, bytes}
use upnpsdk.Timer.{idle_timer}
use upnpsdk.ClientTable.{ClientSubscription, remove_client_sub_client_sid, copy_client_subscription}

abbrev lamp : ClientSubscription
lamp = record {
  sid = bytes "a1";
  actual_sid = bytes "uuid:77";
  event_url = bytes "http://10.0.0.2/e";
  renew_event_id = 4;
}

abbrev fan : ClientSubscription
fan = record {
  sid = bytes "b2";
  actual_sid = bytes "uuid:9";
  event_url = bytes "http://10.0.0.3/e";
  renew_event_id = 5;
}

copy_fan : copy_client_subscription true false fan ≡ none
unfolding copy_client_subscription
copy_fan = refl

remove_missing :
    remove_client_sub_client_sid (lamp ∷ fan ∷ []) (bytes "c3") idle_timer
    ≡ (lamp ∷ fan ∷ [], idle_timer)
unfolding remove_client_sub_client_sid str_eq
remove_missing = refl
