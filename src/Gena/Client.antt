-- ===== src/Gena/Client.antt =====
-- src/gena/gena_client.c: `genaUnregisterClient`, and `UpnpUnRegisterClient` of src/api/upnpapi.c, which
-- calls it. No other call comes in between the rounds of the loop, though the mutex is given up.
pub mod Drained
mod Tests
pub mod Unsubscribe
use upnpsdk.Prelude.{
  ℕ, zero, suc, ◌+◌, Bool, true, false, not, Option, none, some, List, [], ◌∷◌, ◌++◌, if◌then◌else◌,
  bytes,
}
use upnpsdk.Prelude.Int.{ℤ, pos, eqb_ℤ}
use upnpsdk.Codes.{Status, rc}
use upnpsdk.Timer.{Timer}
use upnpsdk.ClientTable.{
  ClientSubscription, copy_client_subscription, free_client_sub_list, remove_client_sub_client_sid,
}
use upnpsdk.Api.Handles.{
  HandleType, HandleInfo, HandleTable, handle_type_value, get_handle_info, free_handle, index, put,
}

-- A request UNSUBSCRIBE: the URL and the text.
abbrev pub Unsubscribe : Type 0
Unsubscribe = List ℕ × List ℕ

unfoldable pub unsubscribe_text : ClientSubscription → Unsubscribe
unsubscribe_text s = (s.event_url, bytes "SID: " ++ (s.actual_sid ++ bytes "\r\n\r\n"))

-- How `genaUnregisterClient` ends; `dangles` says that the list in the table has been freed and is still
-- pointed at.
pub record Unregistered : Type 0 where
  pub code : ℤ
  pub table : HandleTable
  pub timer : Timer
  pub sent : List Unsubscribe
  pub dangles : Bool

abbrev pub ends_with : ℤ → HandleTable → Timer → Unregistered
ends_with code t timer = record {
  code = code;
  table = t;
  timer = timer;
  sent = [];
  dangles = false;
}

unfoldable pub sends_first : Unsubscribe → Option Unregistered → Option Unregistered
sends_first u none = none
sends_first u (some r) = some (record r { sent = u ∷ r.sent })

abbrev pub with_list : HandleInfo → List ClientSubscription → HandleInfo
with_list info l = record info { client_sub_list = l }

-- A round with the first subscription, once its copy is made: it is removed, and the request is sent
-- unless there is no memory for it. What comes of the request is not looked at.
unfoldable pub round :
    Bool
    → ℤ
    → HandleTable
    → HandleInfo
    → ClientSubscription
    → List ClientSubscription × Timer
    → (HandleTable → Timer → Option Unregistered)
    → Option Unregistered
unfolding sends_first unsubscribe_text
round memory handle t info copy (l, timer) next =
    let t' = put (index handle) (some (with_list info l)) t in
    let rest = next t' timer in
    if not memory
    then some (ends_with (rc Status.outof_memory) t' timer)
    else sends_first (unsubscribe_text copy) rest

-- The loop, from a round on: `copies` and `requests` say whether the copy and the request of a round get
-- their memory. The failure of a copy ends it with 1, and with the whole list freed.
unfoldable pub unregister_loop :
    (ℕ → Bool) → (ℕ → Bool) → ℕ → ℕ → ℤ → HandleTable → Timer → Option Unregistered
unfolding get_handle_info copy_client_subscription remove_client_sub_client_sid free_client_sub_list
    round
unregister_loop copies requests zero i handle t timer = none
unregister_loop copies requests (suc fuel) i handle t timer =
    let (type, found) = get_handle_info t handle none in
    let next = unregister_loop copies requests fuel (i + 1) handle in
    if not (eqb_ℤ type (handle_type_value HandleType.client))
    then some (ends_with (rc Status.invalid_handle) t timer)
    else elim found [
      | none ↦ none
      | some info ↦ elim info.client_sub_list [
        | [] ↦ some (ends_with (rc Status.success) t timer)
        | s ∷ l ↦ elim (copy_client_subscription (copies i) (copies i) s) [
          | none ↦ some (record {
            code = pos 1;
            table = t;
            timer = free_client_sub_list (s ∷ l) timer;
            sent = [];
            dangles = true;
          })
          | some copy ↦
              round (requests i) handle t info copy
                (remove_client_sub_client_sid (s ∷ l) copy.sid timer) next
        ]
      ]
    ]

-- The result, and what `genaUnregisterClient` left, with the handle freed where it succeeded.
unfoldable pub unregistered : ℤ → Unregistered → ℤ × Unregistered
unfolding get_handle_info free_handle
unregistered handle r =
    let (type, found) = get_handle_info r.table handle none in
    if not (eqb_ℤ r.code (pos 0))
    then (rc Status.invalid_handle, r)
    else if eqb_ℤ type (rc Status.invalid_handle)
    then (rc Status.invalid_handle, r)
    else (rc Status.success, record r { table = (free_handle r.table handle).1 })

unfoldable pub unregister_client :
    (ℕ → Bool) → (ℕ → Bool) → ℕ → ℤ → HandleTable → Timer → Option (ℤ × Unregistered)
unfolding unregister_loop unregistered
unregister_client copies requests fuel handle t timer =
    elim (unregister_loop copies requests fuel 0 handle t timer) [
      | none ↦ none
      | some r ↦ some (unregistered handle r)
    ]
