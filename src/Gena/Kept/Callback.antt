-- ===== src/Gena/Kept/Callback.antt =====
-- The request SUBSCRIBE of src/gena/gena_server.c, and all that src/gena/gena_callback.c hands on, keep
-- the bookkeeping of the subscriptions.
use upnpsdk.Prelude.{
  ℕ, ◌≡◌, refl, Bool, true, false, not, Option, none, some, List, if◌then◌else◌, length, bytes,
  ◌==◌,
}
use upnpsdk.Prelude.Int.{ℤ, pos, eqb_ℤ}
use upnpsdk.Prelude.Search.{is_some}
use upnpsdk.Http.Message.{Message, search_for_header}
use upnpsdk.ServiceTable.{Subscription, UrlList}
use upnpsdk.Api.Handles.{HandleTable}
use upnpsdk.Gena.{put_service}
use upnpsdk.Gena.Callbacks.{Made, overruns, no_memory, made, create_url_list}
use upnpsdk.Gena.Replies.{
  Around, unable_memory, unable_service_unknown, bad_request, bad_callback, invalid_nt, respond_ok,
  requested, granted, not_implemented,
}
use upnpsdk.Gena.Requests.{Search, Served, event_service, unsubscribe_request, renew_request}
use upnpsdk.Gena.Subscribe.{
  New, Ending, replies, faults, notifies, begins, is_event, at_limit, new_subscription,
  with_subscription, subscribed, with_urls, subscribe_found, subscription_request, replied,
  subscribe_or_renew, by_method,
}
use upnpsdk.Gena.Kept.{IsTableKept}
use upnpsdk.Gena.Kept.Services.{add-IsKept}
use upnpsdk.Gena.Kept.Tables.{put_service-IsTableKept, IsServedKept, event_service-IsServedKept}
use upnpsdk.Gena.Kept.Requests.{unsubscribe-IsTableKept, renew-IsTableKept}

-- The table that an ending leaves, if it leaves one.
abbrev pub IsEndingKept : Ending → Type 0
IsEndingKept (replies text t event) = IsTableKept t
IsEndingKept faults = Unit
IsEndingKept (notifies m) = Unit

subscribed-IsEndingKept :
    (t : HandleTable) (found : Served) (u : Subscription) (r : ℤ × List ℕ)
    → IsTableKept t
    → IsServedKept (some found)
    → at_limit found.info found.service ≡ false
    → IsEndingKept (subscribed t found u r)
unfolding subscribed
subscribed-IsEndingKept t found u (code, text) h k l = go (eqb_ℤ code (pos 0))
  where
    go :
        (b : Bool)
        → IsEndingKept (
            if not b
            then replies text t none
            else replies text
                (put_service t found.handle found.info found.position
                  (with_subscription found.service u))
                (some (record {
                  service_id = found.service.service_id;
                  udn = found.service.udn;
                  sid = u.sid;
                })))
    go false = h
    go true =
        put_service-IsTableKept t found.handle found.info found.position
          (with_subscription found.service u) k.0 (add-IsKept found.info found.service u l k.1) h

with_urls-IsEndingKept :
    (a : Around) (n : New) (m : Message) (t : HandleTable) (found : Served) (urls : Made UrlList)
    → IsTableKept t
    → IsServedKept (some found)
    → at_limit found.info found.service ≡ false
    → IsEndingKept (with_urls a n m t found urls)
unfolding with_urls
with_urls-IsEndingKept a n m t found overruns h k l = tt
with_urls-IsEndingKept a n m t found no_memory h k l = h
with_urls-IsEndingKept a n m t found (made urls) h k l = go (length urls.parsed_urls == 0)
  where
    time_out : ℤ
    time_out = granted found.info (requested a (search_for_header m.header_list (bytes "TIMEOUT")))

    u : Subscription
    u = new_subscription a n found.info time_out urls

    go :
        (b : Bool)
        → IsEndingKept (
            if b
            then replies bad_callback t none
            else subscribed t found u (respond_ok a time_out u.sid))
    go true = h
    go false = subscribed-IsEndingKept t found u (respond_ok a time_out u.sid) h k l

subscribe_found-IsEndingKept :
    (a : Around) (n : New) (m : Message) (t : HandleTable) (found : Served)
    → IsTableKept t
    → IsServedKept (some found)
    → IsEndingKept (subscribe_found a n m t found)
unfolding subscribe_found
subscribe_found-IsEndingKept a n m t found h k =
    go (at_limit found.info found.service) n.sub_memory
      (search_for_header m.header_list (bytes "CALLBACK")) refl
  where
    go :
        (b c : Bool) (o : Option (List ℕ))
        → at_limit found.info found.service ≡ b
        → IsEndingKept (
            if b
            then replies unable_memory t none
            else if not c
            then replies unable_memory t none
            else elim o [
              | none ↦ faults
              | some value ↦ with_urls a n m t found (
                  create_url_list n.first n.second n.beyond n.behind n.temp n.fresh n.urls_memory
                    value)
            ])
    go true c o l = h
    go false false o l = h
    go false true none l = tt
    go false true (some value) l =
        with_urls-IsEndingKept a n m t found
          (create_url_list n.first n.second n.beyond n.behind n.temp n.fresh n.urls_memory value) h
          k l

subscription-IsEndingKept :
    (a : Around) (n : New) (s : Search) (m : Message) (t : HandleTable)
    → IsTableKept t
    → IsEndingKept (subscription_request a n s m t)
unfolding subscription_request
subscription-IsEndingKept a n s m t h = go (search_for_header m.header_list (bytes "NT"))
  where
    at :
        (o : Option Served)
        → IsServedKept o
        → IsEndingKept (elim o [
          | none ↦ replies unable_service_unknown t none
          | some found ↦ subscribe_found a n m t found
        ])
    at none k = h
    at (some found) k = subscribe_found-IsEndingKept a n m t found h k

    searched : Ending
    searched = elim (event_service s t m.request.request_uri.pathquery) [
      | none ↦ replies unable_service_unknown t none
      | some found ↦ subscribe_found a n m t found
    ]

    guarded :
        (b c d : Bool)
        → IsEndingKept (
            if not b
            then replies invalid_nt t none
            else if c
            then replies bad_request t none
            else if not d
            then replies unable_memory t none
            else searched)
    guarded false c d = h
    guarded true true d = h
    guarded true false false = h
    guarded true false true =
        at (event_service s t m.request.request_uri.pathquery)
          (event_service-IsServedKept s t m.request.request_uri.pathquery h)

    go :
        (o : Option (List ℕ))
        → IsEndingKept (elim o [
          | none ↦ replies invalid_nt t none
          | some nt ↦
              if not (is_event nt)
              then replies invalid_nt t none
              else if is_some (search_for_header m.header_list (bytes "SID"))
              then replies bad_request t none
              else if not a.path_memory
              then replies unable_memory t none
              else searched
        ])
    go none = h
    go (some nt) =
        guarded (is_event nt) (is_some (search_for_header m.header_list (bytes "SID")))
          a.path_memory

-- Whatever the method and the headers.
pub by_method-IsEndingKept :
    (a : Around) (n : New) (s : Search) (m : Message) (t : HandleTable)
    → IsTableKept t
    → IsEndingKept (by_method a n s m t)
unfolding by_method subscribe_or_renew
by_method-IsEndingKept a n s m t h =
    go (begins m.request.method (bytes "SUBSCRIBE")) (begins m.request.method (bytes "UNSUBSCRIBE"))
      (begins m.request.method (bytes "NOTIFY"))
      (is_some (search_for_header m.header_list (bytes "NT")))
  where
    go :
        (b c d e : Bool)
        → IsEndingKept (
            if b
            then if e then subscription_request a n s m t else replied (renew_request a s m t)
            else if c
            then replied (unsubscribe_request a s m t)
            else if d
            then notifies m
            else replies not_implemented t none)
    go true c d true = subscription-IsEndingKept a n s m t h
    go true c d false = renew-IsTableKept a s m t h
    go false true d e = unsubscribe-IsTableKept a s m t h
    go false false true e = tt
    go false false false e = h
