-- ===== src/ServiceTable/Tests.antt =====
-- The theorems on src/genlib/service_table/service_table.c at a service of three subscriptions, of
-- which one has expired and one is not active.
use upnpsdk.Prelude.{
  ◌≡◌, refl, true, false, none, some, [], ◌∷◌, arith, if◌then◌else◌, filter, bytes, str_eq,
}
use upnpsdk.Prelude.Int.{pos}
use upnpsdk.ServiceTable.{
  Subscription, ServiceInfo, is_expired, find_sid, get_subscription_sid, find_service_id,
}
use upnpsdk.ServiceTable.Traversal.{is_live, is_served, expired, fewer, visit_all, visit_all_lem}
use upnpsdk.ServiceTable.Lookup.{HasUniqueSids, get_subscription_sid_lem}

abbrev kept : Subscription
kept = record {
  sid = bytes "k";
  event_key = pos 0;
  to_send_event_key = pos 0;
  expire_time = pos 0;
  active = true;
  delivery_urls = record { urls = bytes "<>"; parsed_urls = [] };
}

abbrev late : Subscription
late = record kept { sid = bytes "l"; expire_time = pos 50 }

abbrev not_active : Subscription
not_active = record kept { sid = bytes "f"; active = false }

abbrev service : ServiceInfo
service = record {
  service_type = bytes "urn:t";
  scpd_url = bytes "http://10.0.0.1/s";
  control_url = none;
  event_url = some (bytes "http://10.0.0.1/e");
  service_id = bytes "urn:s";
  udn = bytes "uuid:1";
  active = true;
  total_subscriptions = pos 3;
  subscription_list = late ∷ not_active ∷ kept ∷ [];
}

service-HasUniqueSids : HasUniqueSids service.subscription_list
service-HasUniqueSids =
    ((λ e. grind (arith, e), (λ e. grind (arith, e), tt)), ((λ e. grind (arith, e), tt), (tt, tt)))

visit_all_example :
    visit_all 4 (pos 100) service
    ≡ some (
      filter (is_served (pos 100)) service.subscription_list,
      fewer service
          (filter (is_live (pos 100)) service.subscription_list)
          (expired (pos 100) service.subscription_list),
    )
visit_all_example = visit_all_lem 4 (pos 100) service (omega arith)

get_subscription_sid_example :
    (get_subscription_sid (bytes "l") (pos 100) service).0
      ≡ elim (find_sid (bytes "l") service.subscription_list) [
        | none ↦ none
        | some u ↦ if is_expired (pos 100) u then none else some u
      ]
    × (find_sid (bytes "k") (get_subscription_sid (bytes "l") (pos 100) service).1.subscription_list
        ≡ (if str_eq (bytes "l") (bytes "k")
            then (get_subscription_sid (bytes "l") (pos 100) service).0
            else find_sid (bytes "k") service.subscription_list))
get_subscription_sid_example =
    get_subscription_sid_lem (bytes "l") (bytes "k") (pos 100) service service-HasUniqueSids

no_such_service : find_service_id (service ∷ []) (bytes "urn:s") (bytes "uuid:2") ≡ none
unfolding find_service_id str_eq
no_such_service = refl
