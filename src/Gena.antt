-- ===== src/Gena.antt =====
-- src/gena/gena_server.c: what its functions share. The table of handles is passed from call to call,
-- and the clock is an argument, read once in a stretch under the mutex of the table.
pub mod Event
pub mod Notify
pub mod Calls
pub mod Thread
pub mod Order
pub mod Callbacks
pub mod Replies
pub mod Requests
pub mod Subscribe
pub mod Kept
pub mod Client
mod Tests
pub mod Directory
pub mod Initial
use upnpsdk.Prelude.{
  ℕ, zero, suc, ◌+◌, Bool, true, false, not, Option, none, some, List, [], ◌∷◌, if◌then◌else◌,
  str_eq, get_elem?, set_elem,
}
use upnpsdk.Prelude.Int.{ℤ, pos, negsuc, ◌+ℤ◌, ltb_ℤ, eqb_ℤ}
use upnpsdk.ServiceTable.{Subscription, ServiceInfo, find_service_id}
use upnpsdk.Api.Handles.{
  HandleType, HandleInfo, HandleTable, handle_type_value, get_handle_info, index, put,
}

abbrev pub int_max : ℤ
int_max = pos 2147483647

-- `++` on an `int`, with the wrap-around that the code relies on.
abbrev pub int_inc : ℤ → ℤ
int_inc k = if eqb_ℤ k int_max then negsuc 2147483647 else k +ℤ pos 1

-- A key below 0 is set to 1.
abbrev pub next_key : ℤ → ℤ
next_key k = let n = int_inc k in if ltb_ℤ n (pos 0) then pos 1 else n

-- `notify_thread_struct`; the texts are shared by the jobs of one event, and freed with the last.
pub record NotifyThread : Type 0 where
  pub headers : List ℕ
  pub property_set : List ℕ
  pub serv_id : List ℕ
  pub udn : List ℕ
  pub sid : List ℕ
  pub event_key : ℤ
  pub device_handle : ℤ

-- `GetHandleInfo(..) != HND_DEVICE` is `none`.
unfoldable pub device_info : HandleTable → ℤ → Option HandleInfo
unfolding get_handle_info
device_info t handle =
    let (type, info) = get_handle_info t handle none in
    if eqb_ℤ type (handle_type_value HandleType.device) then info else none

-- The service that `FindServiceId` finds, with its position.
unfoldable pub find_service : HandleInfo → List ℕ → List ℕ → Option (ℕ × ServiceInfo)
unfolding find_service_id
find_service info id udn = elim (find_service_id info.service_table.service_list id udn) [
  | none ↦ none
  | some i ↦ elim (get_elem? info.service_table.service_list i) [
    | none ↦ none
    | some service ↦ some (i, service)
  ]
]

abbrev pub with_service : HandleInfo → ℕ → ServiceInfo → HandleInfo
with_service info i service = record info {
  service_table = record info.service_table {
    service_list = set_elem i service info.service_table.service_list;
  };
}

-- The table with another state of a service.
abbrev pub put_service : HandleTable → ℤ → HandleInfo → ℕ → ServiceInfo → HandleTable
put_service t handle info i service = put (index handle) (some (with_service info i service)) t

-- The change of the first subscription of an identifier, to which `GetSubscriptionSID` points.
unfoldable pub update_sid :
    List ℕ → (Subscription → Subscription) → List Subscription → List Subscription
update_sid sid f [] = []
update_sid sid f (s ∷ l) =
    let rest = update_sid sid f l in if str_eq s.sid sid then f s ∷ l else s ∷ rest
