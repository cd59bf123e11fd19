-- ===== src/Gena/Subscribe.antt =====
-- src/gena/gena_server.c: the request SUBSCRIBE of a new subscription, the choice between it and the
-- renewal, and `genaCallback` of src/gena/gena_callback.c, which tells the requests apart.
use upnpsdk.Prelude.{
  ℕ, Bool, false, not, ◌&&◌, ◌||◌, Option, none, some, List, ◌∷◌, ◌++◌, if◌then◌else◌, length, ◌==◌,
  bytes, take, ◌>>=◌,
}
use upnpsdk.Prelude.Int.{ℤ, pos, negsuc, ◌+ℤ◌, leb_ℤ, eqb_ℤ}
use upnpsdk.Prelude.Search.{is_some, eq_nocase}
use upnpsdk.Codes.{Status}
use upnpsdk.Http.Uri.{Uri}
use upnpsdk.Http.Message.{Message, search_for_header}
use upnpsdk.Http.Request.{parse_http_request}
use upnpsdk.ServiceTable.{Subscription, ServiceInfo, UrlList}
use upnpsdk.Api.Handles.{HandleInfo, HandleTable}
use upnpsdk.Gena.{put_service}
use upnpsdk.Gena.Callbacks.{Outside, Made, overruns, no_memory, made, create_url_list}
use upnpsdk.Gena.Replies.{
  Around, unable_memory, unable_service_unknown, not_implemented, bad_request, bad_callback,
  invalid_nt, respond_ok, requested, granted, expiry,
}
use upnpsdk.Gena.Requests.{Search, Served, event_service, unsubscribe_request, renew_request}

-- `struct Upnp_Subscription_Request`.
pub record SubscriptionRequest : Type 0 where
  pub service_id : List ℕ
  pub udn : List ℕ
  pub sid : List ℕ

-- What `createURL_list` finds, the outcome of the `malloc` of the subscription, and the text of the
-- identifier that `uuid_unparse` makes.
pub record New : Type 0 where
  pub first : Outside
  pub second : Outside
  pub beyond : List ℕ
  pub behind : List ℕ
  pub temp : Uri
  pub fresh : ℕ → Uri
  pub urls_memory : Bool
  pub sub_memory : Bool
  pub uuid : List ℕ

-- How a request ends: the reply, the table and the call of the application's callback; or a write or a
-- free through what was never set; or `genaNotifyReceived` is called.
pub data Ending : Type 0 where
  replies : List ℕ → HandleTable → Option SubscriptionRequest → Ending
  faults : Ending
  notifies : Message → Ending

-- `strncasecmp(value, text, the value's size) == 0`: any beginning of the text will do.
unfoldable pub begins : List ℕ → List ℕ → Bool
unfolding eq_nocase
begins value text = eq_nocase value (take (length value) text)

abbrev pub is_event : List ℕ → Bool
is_event nt = begins nt (bytes "upnp:event") || begins nt (bytes "upnp:propchange")

-- Here the limit is reached when the new subscription would go over it.
abbrev pub at_limit : HandleInfo → ServiceInfo → Bool
at_limit info service =
    not (eqb_ℤ info.max_subscriptions (negsuc 0))
    && leb_ℤ info.max_subscriptions service.total_subscriptions

abbrev pub new_subscription : Around → New → HandleInfo → ℤ → UrlList → Subscription
new_subscription a n info time_out urls = record {
  sid = bytes "uuid:" ++ n.uuid;
  event_key = pos 0;
  to_send_event_key = pos 0;
  expire_time = expiry a time_out;
  active = false;
  delivery_urls = urls;
}

abbrev pub with_subscription : ServiceInfo → Subscription → ServiceInfo
with_subscription service s = record service {
  subscription_list = s ∷ service.subscription_list;
  total_subscriptions = service.total_subscriptions +ℤ pos 1;
}

-- With the result of `respondOK`.
unfoldable pub subscribed : HandleTable → Served → Subscription → ℤ × List ℕ → Ending
unfolding ◌+ℤ◌
subscribed t found s (code, text) =
    if not (eqb_ℤ code (pos 0))
    then replies text t none
    else replies text
        (put_service t found.handle found.info found.position (with_subscription found.service s))
        (some
          (record { service_id = found.service.service_id; udn = found.service.udn; sid = s.sid }))

-- With the delivery URLs.
unfoldable pub with_urls : Around → New → Message → HandleTable → Served → Made UrlList → Ending
unfolding subscribed respond_ok requested granted expiry search_for_header
with_urls a n m t found overruns = faults
with_urls a n m t found no_memory = replies unable_memory t none
with_urls a n m t found (made urls) =
    let time_out =
      granted found.info (requested a (search_for_header m.header_list (bytes "TIMEOUT"))) in
    let s = new_subscription a n found.info time_out urls in
    if length urls.parsed_urls == 0
    then replies bad_callback t none
    else subscribed t found s (respond_ok a time_out s.sid)

-- From the search for the service on. Without CALLBACK the URLs of the subscription, which nothing has
-- set, are freed.
unfoldable pub subscribe_found : Around → New → Message → HandleTable → Served → Ending
unfolding with_urls create_url_list
subscribe_found a n m t found =
    if at_limit found.info found.service
    then replies unable_memory t none
    else if not n.sub_memory
    then replies unable_memory t none
    else elim (search_for_header m.header_list (bytes "CALLBACK")) [
      | none ↦ faults
      | some value ↦
          with_urls a n m t found
            (create_url_list n.first n.second n.beyond n.behind n.temp n.fresh n.urls_memory value)
    ]

unfoldable pub subscription_request : Around → New → Search → Message → HandleTable → Ending
unfolding begins subscribe_found event_service
subscription_request a n s m t = elim (search_for_header m.header_list (bytes "NT")) [
  | none ↦ replies invalid_nt t none
  | some nt ↦
      if not (is_event nt)
      then replies invalid_nt t none
      else if is_some (search_for_header m.header_list (bytes "SID"))
      then replies bad_request t none
      else if not a.path_memory
      then replies unable_memory t none
      else elim (event_service s t m.request.request_uri.pathquery) [
        | none ↦ replies unable_service_unknown t none
        | some found ↦ subscribe_found a n m t found
      ]
]

abbrev pub replied : List ℕ × HandleTable → Ending
replied (text, t) = replies text t none

unfoldable pub subscribe_or_renew : Around → New → Search → Message → HandleTable → Ending
unfolding subscription_request renew_request search_for_header
subscribe_or_renew a n s m t =
    if is_some (search_for_header m.header_list (bytes "NT"))
    then subscription_request a n s m t
    else replied (renew_request a s m t)

-- The method chooses the handler.
unfoldable pub by_method : Around → New → Search → Message → HandleTable → Ending
unfolding begins subscribe_or_renew unsubscribe_request
by_method a n s m t =
    if begins m.request.method (bytes "SUBSCRIBE")
    then subscribe_or_renew a n s m t
    else if begins m.request.method (bytes "UNSUBSCRIBE")
    then replied (unsubscribe_request a s m t)
    else if begins m.request.method (bytes "NOTIFY")
    then notifies m
    else replies not_implemented t none

-- With what `parse_http_request` returns.
unfoldable pub with_request : Around → New → Search → HandleTable → Status × Message → Ending
unfolding by_method
with_request a n s t (Status.success, m) = by_method a n s m t
with_request a n s t (other, m) = replies bad_request t none

-- `none` is a read behind the end of the document; `room` is the memory for the headers, and `old`
-- what the message held.
unfoldable pub gena_callback :
    Around
    → New
    → Search
    → (List ℕ → Option ℕ)
    → Bool
    → ℕ
    → List ℕ
    → Message
    → HandleTable
    → Option Ending
unfolding parse_http_request with_request
gena_callback a n s resolve malloc_ok room document old t =
    parse_http_request resolve malloc_ok room document old >>= (λ r. some (with_request a n s t r))
