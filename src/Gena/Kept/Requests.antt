-- ===== src/Gena/Kept/Requests.antt =====
-- The requests of src/gena/gena_server.c keep the bookkeeping of the subscriptions.
use upnpsdk.Prelude.{
  ℕ, Bool, true, false, not, ◌||◌, Option, none, some, List, if◌then◌else◌, length, ltb, bytes,
  arith,
}
use upnpsdk.Prelude.Int.{ℤ, pos, eqb_ℤ}
use upnpsdk.Prelude.Search.{is_some}
use upnpsdk.Http.Message.{Message, search_for_header}
use upnpsdk.ServiceTable.{
  Subscription, ServiceInfo, get_subscription_sid, remove_subscription_sid, sid_size,
}
use upnpsdk.Api.Handles.{HandleInfo, HandleTable}
use upnpsdk.Gena.{update_sid}
use upnpsdk.Gena.Replies.{
  Around, unable_memory, bad_request, invalid_sid, missing_sid, respond_ok, requested, granted,
  expiry,
}
use upnpsdk.Gena.Requests.{
  Search, Served, event_service, sid_of, answered, with_sid, unsubscribe_found, unsubscribe_request,
  over_limit, renewed, renew_found, renew_request,
}
use upnpsdk.Gena.Kept.{IsTableKept}
use upnpsdk.Gena.Kept.Services.{Shrinks, Shrinks-trans, remove-Shrinks, get-Shrinks, update-Shrinks}
use upnpsdk.Gena.Kept.Tables.{IsServedKept, event_service-IsServedKept}
use upnpsdk.Gena.Kept.Operations.{put-Shrinks}

-- What the requests with an identifier do to the service that they find.
Shrinking :
    (List ℕ → HandleInfo → Option Subscription × ServiceInfo → List ℕ × ServiceInfo) → Type 0
Shrinking act =
    (sid : List ℕ) (info : HandleInfo) (o : Option Subscription) (s : ServiceInfo)
    → Shrinks s (act sid info (o, s)).1

with_sid-IsTableKept :
    (a : Around) (s : Search) (m : Message) (t : HandleTable)
    (act : List ℕ → HandleInfo → Option Subscription × ServiceInfo → List ℕ × ServiceInfo)
    → Shrinking act
    → IsTableKept t
    → IsTableKept (with_sid a s m t act).1
unfolding with_sid Shrinking
with_sid-IsTableKept a s m t act f h =
    go
      (is_some (search_for_header m.header_list (bytes "CALLBACK"))
        || is_some (search_for_header m.header_list (bytes "NT")))
      (search_for_header m.header_list (bytes "SID"))
  where
    acted : Served → List ℕ → List ℕ × ServiceInfo
    acted found value =
        act (sid_of a value) found.info (get_subscription_sid (sid_of a value) a.now found.service)

    found_at :
        (value : List ℕ) (o : Option Served)
        → IsServedKept o
        → IsTableKept
            (elim o as (λ x. List ℕ × HandleTable) [
              | none ↦ (invalid_sid, t)
              | some found ↦ answered t found (acted found value)
            ]).1
    found_at value none k = h
    found_at value (some found) k =
        put-Shrinks t found.handle found.info found.position found.service (acted found value).1 h
          k.0 k.1
          (Shrinks-trans found.service (get_subscription_sid (sid_of a value) a.now found.service).1
            (acted found value).1 (get-Shrinks (sid_of a value) a.now found.service)
            (f (sid_of a value) found.info
              (get_subscription_sid (sid_of a value) a.now found.service).0
              (get_subscription_sid (sid_of a value) a.now found.service).1))

    searched : List ℕ → List ℕ × HandleTable
    searched value = elim (event_service s t m.request.request_uri.pathquery) [
      | none ↦ (invalid_sid, t)
      | some found ↦ answered t found (acted found value)
    ]

    checked :
        (value : List ℕ) (b c : Bool)
        → IsTableKept
            (if◌then◌else◌ {A = List ℕ × HandleTable} b
              (missing_sid, t)
              (if not c then (unable_memory, t) else searched value)).1
    checked value true c = h
    checked value false false = h
    checked value false true =
        found_at value (event_service s t m.request.request_uri.pathquery)
          (event_service-IsServedKept s t m.request.request_uri.pathquery h)

    go :
        (b : Bool) (o : Option (List ℕ))
        → IsTableKept
            (if◌then◌else◌ {A = List ℕ × HandleTable} b
              (bad_request, t)
              (elim o [
                | none ↦ (missing_sid, t)
                | some value ↦
                    if ltb sid_size (length value)
                    then (missing_sid, t)
                    else if not a.path_memory
                    then (unable_memory, t)
                    else searched value
              ])).1
    go true o = h
    go false none = h
    go false (some value) = checked value (ltb sid_size (length value)) a.path_memory

unsubscribe-Shrinking : Shrinking unsubscribe_found
unfolding Shrinking unsubscribe_found
unsubscribe-Shrinking sid info none s = (λ k. k, omega arith)
unsubscribe-Shrinking sid info (some u) s = remove-Shrinks sid s

renewed-Shrinks :
    (u : Subscription) (r : ℤ × List ℕ) (s : ServiceInfo) → Shrinks s (renewed u r s).1
unfolding renewed
renewed-Shrinks u (code, text) s = go (eqb_ℤ code (pos 0))
  where
    go :
        (b : Bool)
        → Shrinks s
            (if◌then◌else◌ {A = List ℕ × ServiceInfo}
              (not b)
              (text, remove_subscription_sid u.sid s)
              (text, s)).1
    go true = (λ k. k, omega arith)
    go false = remove-Shrinks u.sid s

renew-Shrinking : (a : Around) (timeout : Option (List ℕ)) → Shrinking (renew_found a timeout)
unfolding Shrinking renew_found
renew-Shrinking a timeout sid info none s = (λ k. k, omega arith)
renew-Shrinking a timeout sid info (some u) s = go (over_limit info s)
  where
    time_out : ℤ
    time_out = granted info (requested a timeout)

    extended : ServiceInfo
    extended = record s {
      subscription_list =
          update_sid sid (λ s. record s { expire_time = expiry a time_out }) s.subscription_list;
    }

    go :
        (b : Bool)
        → Shrinks s
            (if b
              then (unable_memory, remove_subscription_sid u.sid s)
              else renewed u (respond_ok a time_out u.sid) extended).1
    go true = remove-Shrinks u.sid s
    go false =
        Shrinks-trans s extended (renewed u (respond_ok a time_out u.sid) extended).1
          (update-Shrinks sid (λ s. record s { expire_time = expiry a time_out }) s)
          (renewed-Shrinks u (respond_ok a time_out u.sid) extended)

pub unsubscribe-IsTableKept :
    (a : Around) (s : Search) (m : Message) (t : HandleTable)
    → IsTableKept t
    → IsTableKept (unsubscribe_request a s m t).1
unfolding unsubscribe_request
unsubscribe-IsTableKept a s m t =
    with_sid-IsTableKept a s m t unsubscribe_found unsubscribe-Shrinking

pub renew-IsTableKept :
    (a : Around) (s : Search) (m : Message) (t : HandleTable)
    → IsTableKept t
    → IsTableKept (renew_request a s m t).1
unfolding renew_request
renew-IsTableKept a s m t =
    with_sid-IsTableKept a s m t (renew_found a (search_for_header m.header_list (bytes "TIMEOUT")))
      (renew-Shrinking a (search_for_header m.header_list (bytes "TIMEOUT")))
