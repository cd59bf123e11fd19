-- ===== src/Gena/Tests.antt =====
-- The theorems on src/gena/gena_server.c at a device with one service of three subscriptions, of which
-- one has expired and one is not active.
use upnpsdk.Prelude.{
  ℕ, ◌<◌, ◌≡◌, refl, true, false, none, some, List, [], ◌∷◌, map, filter, take, length, arith,
  if◌then◌else◌, bytes, str_eq, inr,
}
use upnpsdk.Prelude.Int.{pos, negsuc, eqb_ℤ}
use upnpsdk.Codes.{Status, rc}
use upnpsdk.ServiceTable.{Subscription, ServiceInfo, find_sid, get_subscription_sid}
use upnpsdk.ServiceTable.Traversal.{fewer, is_live, is_served, expired}
use upnpsdk.ServiceTable.Lookup.{HasUniqueSids}
use upnpsdk.Api.Handles.{HandleInfo, HandleTable, HandleType}
use upnpsdk.Gena.{NotifyThread}
use upnpsdk.Gena.Event.{headers_text, property_set_text, property_set_size, full_message, full_size}
use upnpsdk.Gena.Event.Sizes.{length-property_set_text, full_message-fits}
use upnpsdk.Gena.Notify.{job_of, Notified, notify_service}
use upnpsdk.Gena.Notify.Serve.{serve}
use upnpsdk.Gena.Notify.Rounds.{finish, notify_service_lem}
use upnpsdk.Gena.Notify.Outcome.{issued, notify_service-accepted, notify_service-short}
use upnpsdk.Gena.Calls.{Outcomes, init_found}
use upnpsdk.Gena.Thread.{thread_end, remove_sub, end_found, sent}
use upnpsdk.Gena.Calls.{initial_job}
use upnpsdk.Gena.Subscribe.{with_subscription}
use upnpsdk.Gena.Directory.{view, without, changed, end_found-refines}
use upnpsdk.Gena.Initial.{init-once, subscribe-init}
use upnpsdk.Gena.Kept.{IsTableKept}
use upnpsdk.Gena.Kept.Calls.{Call, Calls, Calls-IsTableKept}

abbrev kept : Subscription
kept = record {
  sid = bytes "k";
  event_key = pos 0;
  to_send_event_key = pos 0;
  expire_time = pos 0;
  active = true;
  delivery_urls = record { urls = bytes "<>"; parsed_urls = [] };
}

abbrev late : Subscription
late = record kept { sid = bytes "l"; expire_time = pos 50 }

abbrev inactive : Subscription
inactive = record kept { sid = bytes "f"; active = false }

abbrev service : ServiceInfo
service = record {
  service_type = bytes "urn:t";
  scpd_url = bytes "http://10.0.0.1/s";
  control_url = none;
  event_url = some (bytes "http://10.0.0.1/e");
  service_id = bytes "urn:s";
  udn = bytes "uuid:1";
  active = true;
  total_subscriptions = pos 3;
  subscription_list = late ∷ inactive ∷ kept ∷ [];
}

abbrev device : HandleInfo
device = record {
  htype = HandleType.device;
  callback = 1;
  cookie = 0;
  max_age = pos 100;
  service_table = record { url_base = []; service_list = service ∷ [] };
  client_sub_list = [];
  max_subscriptions = pos 3;
  max_subscription_time_out = negsuc 0;
}

abbrev table : HandleTable
table = none ∷ some device ∷ []

abbrev event : NotifyThread
event = record {
  headers = [];
  property_set = [];
  serv_id = bytes "urn:s";
  udn = bytes "uuid:1";
  sid = bytes "k";
  event_key = pos 0;
  device_handle = pos 1;
}

table-IsTableKept : IsTableKept table
table-IsTableKept = (tt, (((refl, inr (omega arith)), tt), tt))

-- The job of the last subscription ends, with the reply that takes it out.
abbrev ended : HandleTable
ended = thread_end remove_sub (pos 100) event table

Calls-IsTableKept_example : IsTableKept ended
Calls-IsTableKept_example =
    Calls-IsTableKept table ended
      (Calls.then table table ended (Calls.stay table) (Call.ends remove_sub (pos 100) event table))
      table-IsTableKept

notify_service_lem_example :
    notify_service (λ i. true) (λ i. pos 0) event (pos 100) 4 service
    ≡ some (
        finish service [] []
          (serve (λ i. true) (λ i. pos 0) event (pos 100) 0 (pos 0) service.subscription_list))
notify_service_lem_example =
    notify_service_lem (λ i. true) (λ i. pos 0) event (pos 100) 4 service (omega arith)

notify_service-accepted_example :
    notify_service (λ i. true) (λ i. pos 0) event (pos 100) 4 service
    ≡ some (record {
      service =
          fewer service
            (map issued (filter (is_live (pos 100)) service.subscription_list))
            (expired (pos 100) service.subscription_list);
      jobs = map (job_of event) (filter (is_served (pos 100)) service.subscription_list);
      reference_count = length (filter (is_served (pos 100)) service.subscription_list);
      return_code = pos 0;
    })
notify_service-accepted_example =
    notify_service-accepted (λ i. true) (λ i. pos 0) event (pos 100) 4 service (omega arith)
      (λ j b. (refl, refl))

notify_service-short_example :
    (st : Notified) × (notify_service (λ i. false) (λ i. pos 0) event (pos 100) 4 service ≡ some st)
    × (st.return_code ≡ pos 0)
    × (st.jobs
        ≡ map (job_of event) (take 0 (filter (is_served (pos 100)) service.subscription_list)))
notify_service-short_example =
    notify_service-short (λ i. false) (λ i. pos 0) event (pos 100) 4 service 0 (omega arith)
      (omega arith) (λ j b. absurd (omega (arith, b))) refl

property_set_example :
    length (property_set_text ((bytes "Power", bytes "1") ∷ []))
    ≡ property_set_size ((bytes "Power", bytes "1") ∷ [])
unfolding property_set_text
property_set_example = length-property_set_text ((bytes "Power", bytes "1") ∷ []) (omega arith)

full_message-fits_example :
    length (full_message (bytes "NT: upnp:event\r\n") (bytes "<e/>") kept)
    < full_size (bytes "NT: upnp:event\r\n") (bytes "<e/>")
full_message-fits_example =
    full_message-fits (bytes "NT: upnp:event\r\n") (bytes "<e/>") kept 0 (omega arith) refl

service-HasUniqueSids : HasUniqueSids service.subscription_list
service-HasUniqueSids =
    ((λ e. grind (arith, e), (λ e. grind (arith, e), tt)), ((λ e. grind (arith, e), tt), (tt, tt)))

end_found-refines_example :
    view (end_found remove_sub (bytes "k") (some kept, service)).subscription_list (bytes "f") ≡ (
      if eqb_ℤ remove_sub remove_sub
      then without (bytes "k") (view service.subscription_list) (bytes "f")
      else changed (bytes "k") sent (view service.subscription_list) (bytes "f"))
end_found-refines_example =
    end_found-refines remove_sub (bytes "k") kept service (bytes "f") service-HasUniqueSids

-- The headers get no memory.
abbrev short : Outcomes
short = record { copies = true; headers = false; thread = true; pool = pos 0 }

abbrev enough : Outcomes
enough = record short { headers = true }

abbrev job : List ℕ → Subscription → NotifyThread
job = initial_job (pos 1) (bytes "uuid:1") (bytes "urn:s") (bytes "f")

init-once_example :
    (let again =
        get_subscription_sid
          (bytes "f")
          (pos 200)
          (init_found short
            (pos 0, [])
            job
            (bytes "f")
            (get_subscription_sid (bytes "f") (pos 100) service)).1 in
      init_found enough (pos 0, []) job (bytes "f") again ≡ (rc Status.invalid_sid, again.1, none))
init-once_example =
    init-once short enough (pos 0, []) (pos 0, []) job job (bytes "f") (pos 100) (pos 200) inactive
      service (unfold find_sid str_eq in refl) refl refl

subscribe-init_example :
    (let u = record kept { active = false; event_key = pos 0 } in
      init_found enough
        (pos 0, bytes "<e/>")
        (initial_job (pos 1) (bytes "uuid:1") (bytes "urn:s") u.sid)
        u.sid
        (get_subscription_sid u.sid (pos 100) (with_subscription service u))
      ≡ (
        pos 0,
        with_subscription service (record kept { active = true; event_key = pos 1 }),
        some (record {
          headers = headers_text (bytes "<e/>");
          property_set = bytes "<e/>";
          serv_id = bytes "urn:s";
          udn = bytes "uuid:1";
          sid = kept.sid;
          event_key = pos 0;
          device_handle = pos 1;
        }),
      ))
subscribe-init_example =
    subscribe-init enough (bytes "<e/>") (bytes "uuid:1") (bytes "urn:s") (pos 1) (pos 100) kept
      service refl refl refl refl
