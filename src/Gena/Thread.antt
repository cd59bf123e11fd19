-- ===== src/Gena/Thread.antt =====
-- src/gena/gena_server.c: `genaNotifyThread`, which the thread pool runs for a job, in its two
-- stretches under the mutex of the table, and `genaNotify`, which it calls between them. `transfer` is
-- `transferHTTPparsedURL`: the result and the response.
use upnpsdk.Prelude.{ℕ, Bool, not, Option, none, some, List, [], ◌∷◌, if◌then◌else◌, bytes, ◌>>=◌}
use upnpsdk.Prelude.Int.{ℤ, pos, negsuc, eqb_ℤ}
use upnpsdk.Prelude.Search.{starts_with}
use upnpsdk.Codes.{Status, rc}
use upnpsdk.Http.Uri.{Uri}
use upnpsdk.Http.Message.{Message, parse_http_response}
use upnpsdk.ServiceTable.{
  Subscription, ServiceInfo, copy_subscription, get_subscription_sid, remove_subscription_sid,
}
use upnpsdk.Api.Handles.{HandleTable}
use upnpsdk.Gena.{NotifyThread, next_key, device_info, find_service, put_service, update_sid}
use upnpsdk.Gena.Event.{full_message}

abbrev pub http_success : ℤ
http_success = pos 1

-- `GENA_E_NOTIFY_UNACCEPTED_REMOVE_SUB`.
abbrev pub remove_sub : ℤ
remove_sub = negsuc 8

-- The delivery URLs in turn, until one takes the message; `code` is the result so far.
unfoldable pub deliver : (Uri → List ℕ → ℤ × List ℕ) → List ℕ → ℤ → List Uri → ℤ × List ℕ
deliver transfer message code [] = (code, [])
deliver transfer message code (u ∷ us) =
    let (result, response) = transfer u message in
    let rest = deliver transfer message result us in
    if eqb_ℤ result http_success then (result, response) else rest

-- With what `parse_http_response` returns, whose success is 1.
unfoldable pub response_code : Status × Message → ℤ
response_code (Status.success, m) =
    if starts_with (bytes "200") m.status.status_code
    then rc Status.success
    else if starts_with (bytes "412") m.status.status_code
    then remove_sub
    else rc Status.notify_unaccepted
response_code (st, m) = rc st

-- `none` is a read behind the end of the response. `room` is the memory for its headers, and `old` is
-- what the message structure held.
unfoldable pub gena_notify :
    Bool → (Uri → List ℕ → ℤ × List ℕ) → ℕ → Message → List ℕ → List ℕ → Subscription → Option ℤ
unfolding deliver full_message parse_http_response response_code
gena_notify malloc_ok transfer room old headers property_set s =
    let (code, response) =
      deliver transfer (full_message headers property_set s) (rc Status.notify_unaccepted)
        s.delivery_urls.parsed_urls in
    if not malloc_ok
    then some (rc Status.outof_memory)
    else if eqb_ℤ code http_success
    then parse_http_response room response old >>= (λ r. some (response_code r))
    else some code

-- What the first stretch leads to: the job is freed, it goes back to the thread pool, or the copy of
-- the subscription is sent the message.
pub data Start : Type 0 where
  dropped : Start
  requeued : Start
  sends : Subscription → Start

-- With what `GetSubscriptionSID` returns.
unfoldable pub start_found : Bool → ℤ → Option Subscription → Start
unfolding copy_subscription
start_found copy_ok key none = dropped
start_found copy_ok key (some s) = elim (copy_subscription copy_ok s) [
  | none ↦ dropped
  | some copy ↦ if not (eqb_ℤ key s.to_send_event_key) then requeued else sends copy
]

unfoldable pub thread_start : Bool → ℤ → NotifyThread → HandleTable → Start × HandleTable
unfolding device_info find_service get_subscription_sid start_found
thread_start copy_ok now job t = elim (device_info t job.device_handle) [
  | none ↦ (dropped, t)
  | some info ↦ elim (find_service info job.serv_id job.udn) [
    | none ↦ (dropped, t)
    | some (i, service) ↦
        let (found, service') = get_subscription_sid job.sid now service in
        if not service.active then (dropped, t) else (
          start_found copy_ok job.event_key found,
          put_service t job.device_handle info i service',
        )
  ]
]

-- `ToSendEventKey++` with the wrap to 1.
abbrev pub sent : Subscription → Subscription
sent s = record s { to_send_event_key = next_key s.to_send_event_key }

-- With what `GetSubscriptionSID` returns, and the result of `genaNotify`.
unfoldable pub end_found : ℤ → List ℕ → Option Subscription × ServiceInfo → ServiceInfo
unfolding update_sid remove_subscription_sid
end_found code sid (none, service) = service
end_found code sid (some s, service) =
    let counted = record service {
      subscription_list = update_sid sid sent service.subscription_list;
    } in
    if eqb_ℤ code remove_sub then remove_subscription_sid sid counted else counted

unfoldable pub thread_end : ℤ → ℤ → NotifyThread → HandleTable → HandleTable
unfolding device_info find_service get_subscription_sid end_found
thread_end code now job t = elim (device_info t job.device_handle) [
  | none ↦ t
  | some info ↦ elim (find_service info job.serv_id job.udn) [
    | none ↦ t
    | some (i, service) ↦
        let service' = end_found code job.sid (get_subscription_sid job.sid now service) in
        if not service.active then t else put_service t job.device_handle info i service'
  ]
]
