-- ===== src/Api/Device/Tests.antt =====
-- The theorem on `UpnpUnRegisterRootDevice` of src/api/upnpapi.c at a table with one device.
use upnpsdk.Prelude.{ℕ, List, ◌≡◌, refl, true, none, some, [], bytes}
use upnpsdk.Prelude.Int.{pos}
use upnpsdk.Codes.{Status, rc}
use upnpsdk.Api.Handles.{HandleType, HandleInfo, HandleTable, client_info, init_handle_list, put}
use upnpsdk.Api.Device.{
  EventOutcomes, notify, notify_ext, accept_subscription, accept_subscription_ext,
  unregister_root_device,
}
use upnpsdk.Gena.Calls.{Outcomes}
use upnpsdk.Api.Device.Gone.{unregister-silent}
use upnpsdk.Gena.{NotifyThread}
use upnpsdk.Gena.Thread.{dropped, thread_start}

abbrev device : HandleInfo
device = record (client_info 7 0) { htype = HandleType.device; max_age = pos 100 }

abbrev table : HandleTable
table = put 1 (some device) init_handle_list

abbrev job : NotifyThread
job = record {
  headers = [];
  property_set = [];
  serv_id = bytes "urn:s";
  udn = bytes "uuid:1";
  sid = bytes "k";
  event_key = pos 0;
  device_handle = pos 1;
}

abbrev udn : List ℕ
udn = bytes "uuid:1"

abbrev serv_id : List ℕ
serv_id = bytes "urn:s"

abbrev outcomes : Outcomes
outcomes = record { copies = true; headers = true; thread = true; pool = pos 0 }

abbrev event : EventOutcomes
event = record {
  copies = true;
  text_memory = true;
  headers = true;
  memory = λ i. true;
  tpool = λ i. pos 0;
  now = pos 100;
}

unregister-silent_example :
    (let gone = (unregister_root_device (pos 0) (pos 1) table).1 in
      (thread_start true (pos 100) job gone ≡ (dropped, gone))
      × (notify event (pos 1) (some udn) (some serv_id) (some []) gone table
          ≡ some (rc Status.invalid_handle, table, []))
      × (notify_ext event (pos 1) (some udn) (some serv_id) (some []) gone table
          ≡ some (rc Status.invalid_handle, table, []))
      × (accept_subscription outcomes
            (pos 100)
            true
            (pos 1)
            (some udn)
            (some serv_id)
            (some [])
            (some (bytes "k"))
            gone
            table
          ≡ (rc Status.invalid_handle, table, none))
      × (accept_subscription_ext outcomes
            (pos 100)
            (pos 1)
            (some udn)
            (some serv_id)
            (some (some []))
            (some (bytes "k"))
            gone
            table
          ≡ (rc Status.invalid_handle, table, none)))
unfolding put init_handle_list
unregister-silent_example =
    unregister-silent (pos 0) (pos 1) table true (pos 100) job event outcomes true (some udn)
      (some serv_id) (some (bytes "k")) (some []) (some []) (some (some [])) table refl refl
