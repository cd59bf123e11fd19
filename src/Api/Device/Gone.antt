-- ===== src/Api/Device/Gone.antt =====
-- What is left of a device when `UpnpUnRegisterRootDevice` of src/api/upnpapi.c has returned.
use upnpsdk.Prelude.{
  ℕ, ◌≡◌, refl, sym, ap, ◌∙◌, Bool, true, false, not, Option, none, some, List, [], length, arith,
  if◌then◌else◌, inl, inr, Option-cases,
}
use upnpsdk.Prelude.Int.{ℤ, pos, eqb_ℤ, eqb_ℤ→eq}
use upnpsdk.Codes.{Status, rc}
use upnpsdk.ServiceTable.{free_service_table}
use upnpsdk.Api.Handles.{
  HandleInfo, HandleTable, num_handle, get_handle_info, free_handle, index, put,
}
use upnpsdk.Api.Handles.Lookup.{get-free, length-put}
use upnpsdk.Api.Device.{
  EventOutcomes, names, notify, notify_ext, notify_later, accept_later, accept_subscription,
  accept_subscription_ext, unregister_root_device,
}
use upnpsdk.Gena.{NotifyThread, device_info}
use upnpsdk.Gena.Event.{Property}
use upnpsdk.Gena.Calls.{Outcomes, unregister_device}
use upnpsdk.Gena.Thread.{dropped, thread_start}

eqb_ℤ_refl : (a : ℤ) → eqb_ℤ a a ≡ true
eqb_ℤ_refl a = ground arith

-- A handle that the lookup refuses is no device.
refused :
    (t : HandleTable) (handle : ℤ)
    → (get_handle_info t handle none).0 ≡ rc Status.invalid_handle
    → device_info t handle ≡ none
unfolding device_info rc
refused t handle e = rw e refl

freed_table : (handle : ℤ) (t : HandleTable) → length (unregister_device handle t).1 ≡ length t
unfolding unregister_device
freed_table handle t = go (device_info t handle)
  where
    go :
        (o : Option HandleInfo)
        → length
            (elim o as (λ x. ℤ × HandleTable) [
              | none ↦ (rc Status.invalid_handle, t)
              | some info ↦ (
                rc Status.success,
                put
                    (index handle)
                    (some (record info { service_table = free_service_table info.service_table }))
                    t,
              )
            ]).1
          ≡ length t
    go none = refl
    go (some info) =
        length-put (index handle)
          (some (record info { service_table = free_service_table info.service_table })) t

-- `genaUnregisterDevice` refuses what is no device, and changes nothing then.
not_freed :
    (handle : ℤ) (t : HandleTable)
    → eqb_ℤ (unregister_device handle t).0 (pos 0) ≡ false
    → device_info (unregister_device handle t).1 handle ≡ none
unfolding unregister_device rc
not_freed handle t e = elim (Option-cases (device_info t handle)) [
  | inl n ↦
      let r : unregister_device handle t ≡ (rc Status.invalid_handle, t) =
        rw (unregister_device, n) refl in
      ap (λ x. device_info x.1 handle) r ∙ n
  | inr (info, n) ↦
      let r : eqb_ℤ (unregister_device handle t).0 (pos 0) ≡ true =
        rw (unregister_device, n) refl in
      absurd (let q = sym r ∙ e in cc)
]

unregister-device_info :
    (advertised handle : ℤ) (t : HandleTable)
    → length t ≡ num_handle
    → device_info (unregister_root_device advertised handle t).1 handle ≡ none
unfolding unregister_root_device
unregister-device_info advertised handle t l =
    go (eqb_ℤ (unregister_device handle t).0 (pos 0))
      (eqb_ℤ (get_handle_info freed handle none).0 (rc Status.invalid_handle)) refl refl
  where
    freed : HandleTable
    freed = (unregister_device handle t).1

    go :
        (a b : Bool)
        → eqb_ℤ (unregister_device handle t).0 (pos 0) ≡ a
        → eqb_ℤ (get_handle_info freed handle none).0 (rc Status.invalid_handle) ≡ b
        → device_info
            (if◌then◌else◌ {A = ℤ × HandleTable}
              (not a)
              (rc Status.invalid_handle, freed)
              (if b
                then (rc Status.invalid_handle, freed)
                else (advertised, (free_handle freed handle).1))).1
            handle
          ≡ none
    go false b p q = not_freed handle t p
    go true true p q =
        refused freed handle
          (eqb_ℤ→eq (get_handle_info freed handle none).0 (rc Status.invalid_handle) q)
    go true false p q = refused (free_handle freed handle).1 handle (
        ap (λ r. r.0) (get-free freed handle handle none (freed_table handle t ∙ l)).0
        ∙ rw (eqb_ℤ_refl handle) refl)

-- When `UpnpUnRegisterRootDevice` has returned for a handle, in a table of 200 slots, a job of the handle
-- that starts then is dropped and the table kept; `UpnpNotify`, `UpnpNotifyExt`,
-- `UpnpAcceptSubscription` and `UpnpAcceptSubscriptionExt` return UPNP_E_INVALID_HANDLE, hand over no
-- job and change nothing. This says nothing of a job that is past its first stretch.
pub unregister-silent :
    (advertised handle : ℤ) (t : HandleTable) (copy_ok : Bool) (now : ℤ) (job : NotifyThread)
    (e : EventOutcomes) (o : Outcomes) (text_memory : Bool) (dev_id serv_name sid : Option (List ℕ))
    (printed : Option (List ℕ)) (variables : Option (List Property))
    (document : Option (Option (List ℕ))) (later : HandleTable)
    → length t ≡ num_handle
    → job.device_handle ≡ handle
    → let gone = (unregister_root_device advertised handle t).1 in
      (thread_start copy_ok now job gone ≡ (dropped, gone))
      × (notify e handle dev_id serv_name variables gone later
          ≡ some (rc Status.invalid_handle, later, []))
      × (notify_ext e handle dev_id serv_name printed gone later
          ≡ some (rc Status.invalid_handle, later, []))
      × (accept_subscription o now text_memory handle dev_id serv_name variables sid gone later
          ≡ (rc Status.invalid_handle, later, none))
      × (accept_subscription_ext o now handle dev_id serv_name document sid gone later
          ≡ (rc Status.invalid_handle, later, none))
unfolding thread_start notify notify_ext accept_subscription accept_subscription_ext names
    notify_later accept_later
unregister-silent advertised handle t copy_ok now job e o text_memory dev_id serv_name sid printed
      variables document later l j =
    let d = unregister-device_info advertised handle t l in
    (
      rw (thread_start, j, d) refl,
      rw (notify, names, d) refl,
      rw (notify_ext, names, d) refl,
      rw (accept_subscription, names, d) refl,
      rw (accept_subscription_ext, names, d) refl,
    )
