-- ===== src/Gena/Calls.antt =====
-- src/gena/gena_server.c: the calls of the device's application, `genaUnregisterDevice`,
-- `genaInitNotify` and `genaNotifyAll` with their variants `Ext`. What a variant does otherwise is the
-- property set: `text` is the result and the text of `GeneratePropertySet`, or of the printing of the
-- document. Each call is one stretch under the mutex of the table.
use upnpsdk.Prelude.{ℕ, suc, Bool, true, not, Option, none, some, List, [], if◌then◌else◌, length}
use upnpsdk.Prelude.Int.{ℤ, pos, eqb_ℤ}
use upnpsdk.Codes.{Status, rc}
use upnpsdk.ServiceTable.{Subscription, ServiceInfo, get_subscription_sid, free_service_table}
use upnpsdk.Api.Handles.{HandleInfo, HandleTable, index, put}
use upnpsdk.Gena.{NotifyThread, int_inc, device_info, find_service, put_service, update_sid}
use upnpsdk.Gena.Event.{headers_text}
use upnpsdk.Gena.Notify.{Notified, notify_service, pool_code}

unfoldable pub unregister_device : ℤ → HandleTable → ℤ × HandleTable
unfolding device_info free_service_table
unregister_device handle t = elim (device_info t handle) [
  | none ↦ (rc Status.invalid_handle, t)
  | some info ↦ (
    rc Status.success,
    put (index handle)
        (some (record info { service_table = free_service_table info.service_table })) t,
  )
]

-- What `malloc` and `tpool_Schedule` return in a call of `genaInitNotify`: whether the copies of the
-- names, the headers and the job get their memory.
pub record Outcomes : Type 0 where
  pub copies : Bool
  pub headers : Bool
  pub thread : Bool
  pub pool : ℤ

-- The job of the initial event.
abbrev pub initial_job : ℤ → List ℕ → List ℕ → List ℕ → List ℕ → Subscription → NotifyThread
initial_job handle udn serv_id sid property_set s = record {
  headers = headers_text property_set;
  property_set = property_set;
  serv_id = serv_id;
  udn = udn;
  sid = sid;
  event_key = s.event_key;
  device_handle = handle;
}

abbrev pub activate : Subscription → Subscription
activate s = record s { active = true }

-- `sub->eventKey++`, without the wrap to 1.
abbrev pub take_key : Subscription → Subscription
take_key s = record s { event_key = int_inc s.event_key }

-- The result, the service and the job handed over, from the setting of `active` on.
unfoldable pub init_subscription :
    Outcomes
    → ℤ × List ℕ
    → (List ℕ → Subscription → NotifyThread)
    → List ℕ
    → Subscription
    → ServiceInfo
    → ℤ × ServiceInfo × Option NotifyThread
unfolding update_sid
init_subscription o (code, property_set) job sid s service =
    let active = record service {
      subscription_list = update_sid sid activate service.subscription_list;
    } in
    let taken = record active {
      subscription_list = update_sid sid take_key active.subscription_list;
    } in
    if not (eqb_ℤ code (pos 0))
    then (code, active, none)
    else if not o.headers
    then (rc Status.outof_memory, active, none)
    else if not o.thread
    then (rc Status.outof_memory, active, none)
    else if not (eqb_ℤ o.pool (pos 0))
    then (pool_code o.pool, taken, none)
    else (pos 0, taken, some (job property_set s))

-- With what `GetSubscriptionSID` returns.
unfoldable pub init_found :
    Outcomes
    → ℤ × List ℕ
    → (List ℕ → Subscription → NotifyThread)
    → List ℕ
    → Option Subscription × ServiceInfo
    → ℤ × ServiceInfo × Option NotifyThread
unfolding init_subscription
init_found o text job sid (none, service) = (rc Status.invalid_sid, service, none)
init_found o text job sid (some s, service) =
    let inactive = init_subscription o text job sid s service in
    if s.active then (rc Status.invalid_sid, service, none) else inactive

-- The service changed in the table.
abbrev pub stored :
    HandleTable
    → ℤ
    → HandleInfo
    → ℕ
    → ℤ × ServiceInfo × Option NotifyThread
    → ℤ × HandleTable × Option NotifyThread
stored t handle info i (code, service, job) = (code, put_service t handle info i service, job)

unfoldable pub init_notify :
    Outcomes
    → ℤ
    → ℤ × List ℕ
    → ℤ
    → List ℕ
    → List ℕ
    → List ℕ
    → HandleTable
    → ℤ × HandleTable × Option NotifyThread
unfolding device_info find_service init_found get_subscription_sid
init_notify o now text handle udn serv_id sid t =
    if not o.copies then (rc Status.outof_memory, t, none) else elim (device_info t handle) [
      | none ↦ (rc Status.invalid_handle, t, none)
      | some info ↦ elim (find_service info serv_id udn) [
        | none ↦ (rc Status.invalid_service, t, none)
        | some (i, service) ↦ stored t handle info i (
            init_found o text (initial_job handle udn serv_id sid) sid
              (get_subscription_sid sid now service))
      ]
    ]

-- What all the jobs of one call share.
abbrev pub event_of : ℤ → List ℕ → List ℕ → List ℕ → NotifyThread
event_of handle udn serv_id property_set = record {
  headers = headers_text property_set;
  property_set = property_set;
  serv_id = serv_id;
  udn = udn;
  sid = [];
  event_key = pos 0;
  device_handle = handle;
}

unfoldable pub notified :
    HandleTable
    → ℤ
    → HandleInfo
    → ℕ
    → Option Notified
    → Option (ℤ × HandleTable × List NotifyThread)
notified t handle info i none = none
notified t handle info i (some st) =
    some (st.return_code, put_service t handle info i st.service, st.jobs)

-- `before` is whether the copies of the names and, behind the text, the headers get their memory;
-- `memory` and `tpool` belong to the rounds of the loop. The fuel of the loop is one more than there
-- are subscriptions.
unfoldable pub notify_all :
    Bool × Bool
    → (ℕ → Bool)
    → (ℕ → ℤ)
    → ℤ
    → ℤ × List ℕ
    → ℤ
    → List ℕ
    → List ℕ
    → HandleTable
    → Option (ℤ × HandleTable × List NotifyThread)
unfolding device_info find_service notified notify_service
notify_all (copies, headers) memory tpool now (code, property_set) handle udn serv_id t =
    if not copies
    then some (rc Status.outof_memory, t, [])
    else if not (eqb_ℤ code (pos 0))
    then some (code, t, [])
    else if not headers
    then some (rc Status.outof_memory, t, [])
    else elim (device_info t handle) [
      | none ↦ some (rc Status.invalid_handle, t, [])
      | some info ↦ elim (find_service info serv_id udn) [
        | none ↦ some (rc Status.invalid_service, t, [])
        | some (i, service) ↦ notified t handle info i (
            notify_service memory tpool (event_of handle udn serv_id property_set) now
              (suc (length service.subscription_list)) service)
      ]
    ]
