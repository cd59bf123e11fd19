-- ===== src/Api/Handles.antt =====
-- src/api/upnpapi.c: the table of handles, its search, and the registration of a control point. A slot
-- of `HandleTable` that is not NULL owns its `Handle_Info`, which stands in its place; every function
-- runs while its caller, or it itself, holds the mutex of the table.
pub mod Free
pub mod Lookup
mod Tests
use upnpsdk.Prelude.{
  ℕ, zero, suc, ◌+◌, ◌-◌, Bool, true, false, not, ◌||◌, Option, none, some, List, [], ◌∷◌,
  if◌then◌else◌, ◌==◌,
}
use upnpsdk.Prelude.Int.{ℤ, pos, negsuc, ltb_ℤ, leb_ℤ, eqb_ℤ}
use upnpsdk.Codes.{Status, rc}
use upnpsdk.ClientTable.{ClientSubscription}
use upnpsdk.ServiceTable.{ServiceTable}

-- `Upnp_Handle_Type`, but for HND_INVALID.
pub data HandleType : Type 0 where
  client device : HandleType

abbrev pub handle_type_value : HandleType → ℤ
handle_type_value HandleType.client = pos 0
handle_type_value HandleType.device = pos 1

abbrev pub hnd_invalid : ℤ
hnd_invalid = negsuc 0

-- `struct Handle_Info`, but for the documents of the description. The callback and the cookie are
-- pointers of the application. `UpnpRegisterClient` does not set the service table of a control
-- point, which nothing reads: it is empty here.
pub record HandleInfo : Type 0 where
  pub htype : HandleType
  pub callback : ℕ
  pub cookie : ℕ
  pub max_age : ℤ
  pub service_table : ServiceTable
  pub client_sub_list : List ClientSubscription
  pub max_subscriptions : ℤ
  pub max_subscription_time_out : ℤ

-- `HandleTable`.
abbrev pub HandleTable : Type 0
HandleTable = List (Option HandleInfo)

abbrev pub num_handle : ℕ
num_handle = 200

empty_slots : ℕ → HandleTable
empty_slots zero = []
empty_slots (suc n) = none ∷ empty_slots n

unfoldable pub init_handle_list : HandleTable
unfolding empty_slots
init_handle_list = empty_slots num_handle

-- The loop of `GetFreeHandle` from slot `i` on, whose slots are the argument: the value of `i` behind
-- it, which the test has already increased when it ends the loop.
pub free_from : ℕ → HandleTable → ℕ
free_from i [] = i
free_from i (none ∷ slots) = i + 1
free_from i (some info ∷ slots) = free_from (i + 1) slots

-- Slot 0 is skipped.
pub get_free_handle : HandleTable → ℤ
unfolding free_from
get_free_handle [] = rc Status.outof_handle
get_free_handle (first ∷ slots) =
    let i = free_from 1 slots in if i == num_handle then rc Status.outof_handle else pos (i - 1)

-- `HandleTable[n]`.
unfoldable pub slot : ℕ → HandleTable → Option HandleInfo
slot n [] = none
slot zero (s ∷ slots) = s
slot (suc n) (s ∷ slots) = slot n slots

-- The assignment to `HandleTable[n]`.
unfoldable pub put : ℕ → Option HandleInfo → HandleTable → HandleTable
put n v [] = []
put zero v (s ∷ slots) = v ∷ slots
put (suc n) v (s ∷ slots) = s ∷ put n v slots

abbrev pub out_of_range : ℤ → Bool
out_of_range hnd = ltb_ℤ hnd (pos 1) || leb_ℤ (pos num_handle) hnd

-- The index of a handle in range.
abbrev pub index : ℤ → ℕ
index (pos n) = n
index (negsuc n) = 0

-- The result, and what stands in `*HndInfo` after it: `old` stood there before.
unfoldable pub get_handle_info : HandleTable → ℤ → Option HandleInfo → ℤ × Option HandleInfo
unfolding slot
get_handle_info t hnd old =
    if out_of_range hnd then (rc Status.invalid_handle, old) else elim (slot (index hnd) t) [
      | none ↦ (rc Status.invalid_handle, old)
      | some info ↦ (handle_type_value info.htype, some info)
    ]

-- The searches of `GetClientHandleInfo` and `GetDeviceHandleInfo`, which differ in the type that they
-- look for: the result, the handle and what stands in `*HndInfo`.
unfoldable pub get_typed_handle_info :
    HandleType → HandleTable → Option HandleInfo → ℤ × ℤ × Option HandleInfo
unfolding get_handle_info
get_typed_handle_info type t old =
    let (first, old) = get_handle_info t (pos 1) old in
    let (second, last) = get_handle_info t (pos 2) old in
    if eqb_ℤ first (handle_type_value type)
    then (handle_type_value type, pos 1, old)
    else if eqb_ℤ second (handle_type_value type)
    then (handle_type_value type, pos 2, last)
    else (hnd_invalid, negsuc 0, last)

pub get_client_handle_info : HandleTable → Option HandleInfo → ℤ × ℤ × Option HandleInfo
unfolding get_typed_handle_info
get_client_handle_info = get_typed_handle_info HandleType.client

unfoldable pub get_device_handle_info : HandleTable → Option HandleInfo → ℤ × ℤ × Option HandleInfo
unfolding get_typed_handle_info
get_device_handle_info = get_typed_handle_info HandleType.device

unfoldable pub free_handle : HandleTable → ℤ → ℤ × HandleTable
unfolding slot put
free_handle t hnd =
    if out_of_range hnd then (rc Status.invalid_handle, t) else elim (slot (index hnd) t) [
      | none ↦ (rc Status.invalid_handle, t)
      | some info ↦ (rc Status.success, put (index hnd) none t)
    ]

-- What `UpnpRegisterClient` puts into the table.
abbrev pub client_info : ℕ → ℕ → HandleInfo
client_info fun cookie = record {
  htype = HandleType.client;
  callback = fun;
  cookie = cookie;
  max_age = pos 0;
  service_table = record { url_base = []; service_list = [] };
  client_sub_list = [];
  max_subscriptions = negsuc 0;
  max_subscription_time_out = negsuc 0;
}

-- `UpnpSdkInit`, the outcome of `malloc`, the callback (0 is NULL), the cookie, and what stands in
-- `*Hnd`, if `Hnd` is not NULL: the result, what stands there afterwards, and the table.
pub register_client : ℤ → Bool → ℕ → ℕ → Option ℤ → HandleTable → ℤ × Option ℤ × HandleTable
unfolding get_free_handle put
register_client sdk_init malloc_ok fun cookie hnd t =
    if not (eqb_ℤ sdk_init (pos 1)) then (rc Status.finish, hnd, t) else elim hnd [
      | none ↦ (rc Status.invalid_param, none, t)
      | some old ↦
          let h = get_free_handle t in
          if fun == 0
          then (rc Status.invalid_param, some old, t)
          else if eqb_ℤ h (rc Status.outof_handle)
          then (rc Status.outof_memory, some h, t)
          else if not malloc_ok
          then (rc Status.outof_memory, some h, t)
          else (rc Status.success, some h, put (index h) (some (client_info fun cookie)) t)
    ]
