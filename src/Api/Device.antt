-- ===== src/Api/Device.antt =====
-- src/api/upnpapi.c: the calls of a device's application on its events and limits, and the end of its
-- registration. A pointer that may be NULL is an `Option`. Where a call gives up the mutex of the
-- table and src/gena/gena_server.c takes it again, `later` is the table that it finds.
pub mod Gone
mod Tests
use upnpsdk.Prelude.{
  ℕ, Bool, true, false, not, ◌&&◌, ◌||◌, Option, none, some, List, [], ◌⊎◌, inl, inr, if◌then◌else◌,
}
use upnpsdk.Prelude.Int.{ℤ, pos, negsuc, ltb_ℤ, eqb_ℤ}
use upnpsdk.Prelude.Search.{is_some}
use upnpsdk.Codes.{Status, rc}
use upnpsdk.Api.Handles.{HandleInfo, HandleTable, get_handle_info, free_handle, index, put}
use upnpsdk.Gena.{NotifyThread, device_info}
use upnpsdk.Gena.Event.{Property, generate_property_set, print_property_set}
use upnpsdk.Gena.Calls.{unregister_device, Outcomes, init_notify, notify_all}

-- `UPNP_INFINITE` is -1.
abbrev pub is_limit : ℤ → Bool
is_limit n = eqb_ℤ n (negsuc 0) || not (ltb_ℤ n (pos 0))

-- The change of a device's information, for a limit that is one.
unfoldable pub set_limit : (HandleInfo → HandleInfo) → ℤ → ℤ → HandleTable → ℤ × HandleTable
unfolding device_info put
set_limit change limit handle t =
    if not (is_limit limit) then (rc Status.invalid_handle, t) else elim (device_info t handle) [
      | none ↦ (rc Status.invalid_handle, t)
      | some info ↦ (rc Status.success, put (index handle) (some (change info)) t)
    ]

unfoldable pub set_max_subscriptions : ℤ → ℤ → HandleTable → ℤ × HandleTable
unfolding set_limit
set_max_subscriptions handle limit =
    set_limit (λ info. record info { max_subscriptions = limit }) limit handle

unfoldable pub set_max_subscription_time_out : ℤ → ℤ → HandleTable → ℤ × HandleTable
unfolding set_limit
set_max_subscription_time_out handle limit =
    set_limit (λ info. record info { max_subscription_time_out = limit }) limit handle

-- What the calls on events test: the device, its name, the name of the service.
unfoldable pub names :
    HandleTable → ℤ → Option (List ℕ) → Option (List ℕ) → Status ⊎ (List ℕ × List ℕ)
unfolding device_info
names t handle dev_id serv_name = elim (device_info t handle) [
  | none ↦ inl Status.invalid_handle
  | some info ↦ elim dev_id [
    | none ↦ inl Status.invalid_service
    | some udn ↦ elim serv_name [
      | none ↦ inl Status.invalid_service
      | some serv_id ↦ inr (udn, serv_id)
    ]
  ]
]

-- What memory, thread pool and clock make of a call of `genaNotifyAll`.
pub record EventOutcomes : Type 0 where
  pub copies : Bool
  pub text_memory : Bool
  pub headers : Bool
  pub memory : ℕ → Bool
  pub tpool : ℕ → ℤ
  pub now : ℤ

-- `genaNotifyAll` on the table that it finds.
unfoldable pub notify_later :
    EventOutcomes
    → ℤ × List ℕ
    → ℤ
    → HandleTable
    → Status ⊎ (List ℕ × List ℕ)
    → Option (ℤ × HandleTable × List NotifyThread)
unfolding notify_all
notify_later e text handle later (inl st) = some (rc st, later, [])
notify_later e text handle later (inr (udn, serv_id)) =
    notify_all (e.copies, e.headers) e.memory e.tpool e.now text handle udn serv_id later

-- The variables are NULL, or their names and values.
unfoldable pub notify :
    EventOutcomes
    → ℤ
    → Option (List ℕ)
    → Option (List ℕ)
    → Option (List Property)
    → HandleTable
    → HandleTable
    → Option (ℤ × HandleTable × List NotifyThread)
unfolding names notify_later generate_property_set
notify e handle dev_id serv_name variables t later =
    notify_later e
      (generate_property_set e.text_memory (elim variables [ none ↦ [] | some ps ↦ ps ])) handle
      later
      (elim (names t handle dev_id serv_name) [
        | inl st ↦ inl st
        | inr ids ↦ elim variables [ none ↦ inl Status.invalid_param | some ps ↦ inr ids ]
      ])

-- `document` is what the printing of the document returns.
unfoldable pub notify_ext :
    EventOutcomes
    → ℤ
    → Option (List ℕ)
    → Option (List ℕ)
    → Option (List ℕ)
    → HandleTable
    → HandleTable
    → Option (ℤ × HandleTable × List NotifyThread)
unfolding names notify_later print_property_set
notify_ext e handle dev_id serv_name document t later =
    notify_later e (print_property_set document) handle later (names t handle dev_id serv_name)

-- `genaInitNotify` on the table that it finds.
unfoldable pub accept_later :
    Outcomes
    → ℤ
    → ℤ × List ℕ
    → ℤ
    → List ℕ
    → HandleTable
    → Status ⊎ (List ℕ × List ℕ)
    → ℤ × HandleTable × Option NotifyThread
unfolding init_notify
accept_later o now text handle sid later (inl st) = (rc st, later, none)
accept_later o now text handle sid later (inr (udn, serv_id)) =
    init_notify o now text handle udn serv_id sid later

-- The tests on the identifier and the variables, behind those on the names.
abbrev pub accept_names :
    Status ⊎ (List ℕ × List ℕ) → Option (List ℕ) → Bool → Status ⊎ (List ℕ × List ℕ)
accept_names (inl st) sid has_text = inl st
accept_names (inr ids) none has_text = inl Status.invalid_sid
accept_names (inr ids) (some sid) has_text = if has_text then inr ids else inl Status.invalid_param

abbrev pub or_empty {ℓ} : {A : Type ℓ} → Option (List A) → List A
or_empty none = []
or_empty (some l) = l

unfoldable pub accept_subscription :
    Outcomes
    → ℤ
    → Bool
    → ℤ
    → Option (List ℕ)
    → Option (List ℕ)
    → Option (List Property)
    → Option (List ℕ)
    → HandleTable
    → HandleTable
    → ℤ × HandleTable × Option NotifyThread
unfolding names accept_later generate_property_set
accept_subscription o now text_memory handle dev_id serv_name variables sid t later =
    accept_later o now (generate_property_set text_memory (or_empty variables)) handle
      (or_empty sid) later (accept_names (names t handle dev_id serv_name) sid (is_some variables))

-- `document` is NULL, or what its printing returns.
unfoldable pub accept_subscription_ext :
    Outcomes
    → ℤ
    → ℤ
    → Option (List ℕ)
    → Option (List ℕ)
    → Option (Option (List ℕ))
    → Option (List ℕ)
    → HandleTable
    → HandleTable
    → ℤ × HandleTable × Option NotifyThread
unfolding names accept_later print_property_set
accept_subscription_ext o now handle dev_id serv_name document sid t later =
    accept_later o now (print_property_set (elim document [ none ↦ none | some text ↦ text ]))
      handle (or_empty sid) later
      (accept_names (names t handle dev_id serv_name) sid (is_some document))

-- `UpnpUnRegisterRootDevice`, with no other call in between: `advertised` is the result of the
-- last advertisements, which it returns.
unfoldable pub unregister_root_device : ℤ → ℤ → HandleTable → ℤ × HandleTable
unfolding unregister_device get_handle_info free_handle
unregister_root_device advertised handle t =
    let (code, freed) = unregister_device handle t in
    let (type, found) = get_handle_info freed handle none in
    if not (eqb_ℤ code (pos 0))
    then (rc Status.invalid_handle, freed)
    else if eqb_ℤ type (rc Status.invalid_handle)
    then (rc Status.invalid_handle, freed)
    else (advertised, (free_handle freed handle).1)
