-- ===== src/Gena/Requests.antt =====
-- src/gena/gena_server.c: the requests UNSUBSCRIBE and SUBSCRIBE with an identifier, the renewal. A
-- request is answered once: a handler returns the text of the reply and the table.
use upnpsdk.Prelude.{
  ℕ, Bool, not, ◌&&◌, ◌||◌, Option, none, some, List, [], ◌∷◌, ◌++◌, if◌then◌else◌, length, ltb,
  ◌==◌, bytes, take, drop, get_elem?,
}
use upnpsdk.Prelude.Int.{ℤ, pos, negsuc, ltb_ℤ, eqb_ℤ}
use upnpsdk.Prelude.Search.{is_some}
use upnpsdk.Http.Uri.{Uri}
use upnpsdk.Http.Message.{Message, search_for_header}
use upnpsdk.ServiceTable.{
  Subscription, ServiceInfo, get_subscription_sid, remove_subscription_sid, sid_size,
}
use upnpsdk.ServiceTable.ByUrl.{find_service_event_url_path}
use upnpsdk.Api.Handles.{
  HandleInfo, HandleTable, HandleType, handle_type_value, get_device_handle_info,
}
use upnpsdk.Gena.{put_service, update_sid}
use upnpsdk.Gena.Callbacks.{Outside}
use upnpsdk.Gena.Replies.{
  Around, unable_memory, bad_request, invalid_sid, missing_sid, http_ok_crlf, respond_ok, requested,
  granted, expiry,
}

-- The search by path: what `parse_uri` finds outside, and what its variables hold.
pub record Search : Type 0 where
  pub outside : Outside
  pub wanted : Uri
  pub parsed : Uri

-- An active service of the device, with the handle, its information and the service's position.
pub record Served : Type 0 where
  pub handle : ℤ
  pub info : HandleInfo
  pub position : ℕ
  pub service : ServiceInfo

unfoldable pub served_at : ℤ → HandleInfo → Option ℕ → Option Served
served_at handle info none = none
served_at handle info (some i) = elim (get_elem? info.service_table.service_list i) [
  | none ↦ none
  | some service ↦
      if service.active
      then some (record { handle = handle; info = info; position = i; service = service })
      else none
]

-- The service of the request's path. That there is no device, no such service, or that it is not
-- active, the handlers answer alike.
unfoldable pub event_service : Search → HandleTable → List ℕ → Option Served
unfolding served_at find_service_event_url_path get_device_handle_info
event_service s t path =
    let (type, handle, found) = get_device_handle_info t none in
    if not (eqb_ℤ type (handle_type_value HandleType.device)) then none else elim found [
      | none ↦ none
      | some info ↦ served_at handle info (
          find_service_event_url_path s.outside.resolve s.outside.malloc_ok s.wanted s.parsed
            info.service_table.service_list path)
    ]

-- A string ends at its first 0.
unfoldable pub until_nul : List ℕ → List ℕ
until_nul [] = []
until_nul (c ∷ l) = let rest = until_nul l in if c == 0 then [] else c ∷ rest

-- The array of the identifier, of which only the last byte is set behind the value.
unfoldable pub sid_of : Around → List ℕ → List ℕ
unfolding until_nul
sid_of a value = until_nul (take sid_size (value ++ drop (length value) a.stack))

-- The state of the service in the table.
abbrev pub answered : HandleTable → Served → List ℕ × ServiceInfo → List ℕ × HandleTable
answered t found (text, service) =
    (text, put_service t found.handle found.info found.position service)

-- What the two requests begin with, up to the search for the subscription; `act` is what they do with
-- what `GetSubscriptionSID` returns.
unfoldable pub with_sid :
    Around
    → Search
    → Message
    → HandleTable
    → (List ℕ → HandleInfo → Option Subscription × ServiceInfo → List ℕ × ServiceInfo)
    → List ℕ × HandleTable
unfolding search_for_header sid_of event_service get_subscription_sid
with_sid a s m t act =
    if is_some (search_for_header m.header_list (bytes "CALLBACK"))
      || is_some (search_for_header m.header_list (bytes "NT"))
    then (bad_request, t)
    else elim (search_for_header m.header_list (bytes "SID")) [
      | none ↦ (missing_sid, t)
      | some value ↦
          if ltb sid_size (length value)
          then (missing_sid, t)
          else if not a.path_memory
          then (unable_memory, t)
          else elim (event_service s t m.request.request_uri.pathquery) [
            | none ↦ (invalid_sid, t)
            | some found ↦ answered t found (
                act (sid_of a value) found.info
                  (get_subscription_sid (sid_of a value) a.now found.service))
          ]
    ]

unfoldable pub unsubscribe_found :
    List ℕ → HandleInfo → Option Subscription × ServiceInfo → List ℕ × ServiceInfo
unfolding remove_subscription_sid
unsubscribe_found sid info (none, service) = (invalid_sid, service)
unsubscribe_found sid info (some s, service) = (http_ok_crlf, remove_subscription_sid sid service)

unfoldable pub unsubscribe_request : Around → Search → Message → HandleTable → List ℕ × HandleTable
unfolding with_sid unsubscribe_found
unsubscribe_request a s m t = with_sid a s m t unsubscribe_found

-- The limit of the device on the subscriptions of a service is -1 for none.
abbrev pub over_limit : HandleInfo → ServiceInfo → Bool
over_limit info service =
    not (eqb_ℤ info.max_subscriptions (negsuc 0))
    && ltb_ℤ info.max_subscriptions service.total_subscriptions

-- What `respondOK` has sent decides whether the renewed subscription stays.
unfoldable pub renewed : Subscription → ℤ × List ℕ → ServiceInfo → List ℕ × ServiceInfo
unfolding remove_subscription_sid
renewed s (code, text) service =
    if not (eqb_ℤ code (pos 0))
    then (text, remove_subscription_sid s.sid service)
    else (text, service)

unfoldable pub renew_found :
    Around
    → Option (List ℕ)
    → List ℕ
    → HandleInfo
    → Option Subscription × ServiceInfo
    → List ℕ × ServiceInfo
unfolding renewed requested granted expiry respond_ok update_sid remove_subscription_sid
renew_found a timeout sid info (none, service) = (invalid_sid, service)
renew_found a timeout sid info (some s, service) =
    let time_out = granted info (requested a timeout) in
    let extended = record service {
      subscription_list =
          update_sid sid (λ s. record s { expire_time = expiry a time_out })
            service.subscription_list;
    } in
    if over_limit info service
    then (unable_memory, remove_subscription_sid s.sid service)
    else renewed s (respond_ok a time_out s.sid) extended

unfoldable pub renew_request : Around → Search → Message → HandleTable → List ℕ × HandleTable
unfolding with_sid renew_found search_for_header
renew_request a s m t =
    with_sid a s m t (renew_found a (search_for_header m.header_list (bytes "TIMEOUT")))
