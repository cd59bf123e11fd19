-- ===== src/Gena/Kept/Events.antt =====
-- The calls of the device's application, in src/gena/gena_server.c, keep the bookkeeping of the
-- subscriptions.
use upnpsdk.Prelude.{
  ℕ, suc, ◌≡◌, refl, sym, subst, Bool, true, false, not, Option, none, some, List, [],
  if◌then◌else◌, length, arith,
}
use upnpsdk.Prelude.Int.{ℤ, pos, eqb_ℤ}
use upnpsdk.Codes.{Status, rc}
use upnpsdk.ServiceTable.Traversal.{fewer}
use upnpsdk.ServiceTable.{Subscription, ServiceInfo, get_subscription_sid, free_service_table}
use upnpsdk.Api.Handles.{HandleInfo, HandleTable, index, put}
use upnpsdk.Gena.{NotifyThread, device_info, find_service, update_sid}
use upnpsdk.Gena.Notify.{notify_service, pool_code}
use upnpsdk.Gena.Notify.Rounds.{notify_service_lem}
use upnpsdk.Gena.Notify.Serve.{serve}
use upnpsdk.Gena.Calls.{
  unregister_device, Outcomes, init_subscription, init_found, init_notify, initial_job, stored,
  notified, notify_all, event_of, activate, take_key,
}
use upnpsdk.Gena.Kept.{IsKept, IsInfoKept, IsSlotKept, IsTableKept}
use upnpsdk.Gena.Kept.Services.{Shrinks, Shrinks-trans, get-Shrinks, update-Shrinks, serve-Shrinks}
use upnpsdk.Gena.Kept.Tables.{
  put-IsTableKept, device_info-IsSlotKept, IsPairKept, find_service-IsPairKept,
}
use upnpsdk.Gena.Kept.Operations.{on_service, put-Shrinks}

pub unregister-IsTableKept :
    (handle : ℤ) (t : HandleTable) → IsTableKept t → IsTableKept (unregister_device handle t).1
unfolding unregister_device free_service_table
unregister-IsTableKept handle t h = go (device_info t handle)
  where
    go :
        (o : Option HandleInfo)
        → IsTableKept
            (elim o as (λ x. ℤ × HandleTable) [
              | none ↦ (rc Status.invalid_handle, t)
              | some info ↦ (
                rc Status.success,
                put
                    (index handle)
                    (some (record info { service_table = free_service_table info.service_table }))
                    t,
              )
            ]).1
    go none = h
    go (some info) =
        put-IsTableKept (index handle)
          (some (record info { service_table = free_service_table info.service_table })) t tt h

-- The service behind `genaInitNotify`.
abbrev InitResult : Type 0
InitResult = ℤ × ServiceInfo × Option NotifyThread

init_subscription-Shrinks :
    (o : Outcomes) (text : ℤ × List ℕ) (job : List ℕ → Subscription → NotifyThread) (sid : List ℕ)
    (u : Subscription) (s : ServiceInfo)
    → Shrinks s (init_subscription o text job sid u s).1
unfolding init_subscription
init_subscription-Shrinks o (code, property_set) job sid u s =
    go (eqb_ℤ code (pos 0)) o.headers o.thread (eqb_ℤ o.pool (pos 0))
  where
    active : ServiceInfo
    active = record s { subscription_list = update_sid sid activate s.subscription_list }

    taken : ServiceInfo
    taken = record active { subscription_list = update_sid sid take_key active.subscription_list }

    go :
        (a b c d : Bool)
        → Shrinks s
            (if◌then◌else◌ {A = InitResult}
              (not a)
              (code, active, none)
              (if not b
                then (rc Status.outof_memory, active, none)
                else if not c
                then (rc Status.outof_memory, active, none)
                else if not d
                then (pool_code o.pool, taken, none)
                else (pos 0, taken, some (job property_set u)))).1
    go false b c d = update-Shrinks sid activate s
    go true false c d = update-Shrinks sid activate s
    go true true false d = update-Shrinks sid activate s
    go true true true false =
        Shrinks-trans s active taken (update-Shrinks sid activate s)
          (update-Shrinks sid take_key active)
    go true true true true =
        Shrinks-trans s active taken (update-Shrinks sid activate s)
          (update-Shrinks sid take_key active)

init_found-Shrinks :
    (o : Outcomes) (text : ℤ × List ℕ) (job : List ℕ → Subscription → NotifyThread) (sid : List ℕ)
    (found : Option Subscription) (s : ServiceInfo)
    → Shrinks s (init_found o text job sid (found, s)).1
unfolding init_found
init_found-Shrinks o text job sid none s = (λ k. k, omega arith)
init_found-Shrinks o text job sid (some u) s = go u.active
  where
    go :
        (b : Bool)
        → Shrinks s
            (if b then (rc Status.invalid_sid, s, none) else init_subscription o text job sid u s).1
    go true = (λ k. k, omega arith)
    go false = init_subscription-Shrinks o text job sid u s

pub init-IsTableKept :
    (o : Outcomes) (now : ℤ) (text : ℤ × List ℕ) (handle : ℤ) (udn serv_id sid : List ℕ)
    (t : HandleTable)
    → IsTableKept t
    → IsTableKept (init_notify o now text handle udn serv_id sid t).1
unfolding init_notify
init-IsTableKept o now text handle udn serv_id sid t h = go o.copies
  where
    act : HandleInfo → ℕ → ServiceInfo → ℤ × HandleTable × Option NotifyThread
    act info i s = stored t handle info i (
        init_found o text (initial_job handle udn serv_id sid) sid (get_subscription_sid sid now s))

    found : ℤ × HandleTable × Option NotifyThread
    found = elim (device_info t handle) [
      | none ↦ (rc Status.invalid_handle, t, none)
      | some info ↦ elim (find_service info serv_id udn) [
        | none ↦ (rc Status.invalid_service, t, none)
        | some (i, s) ↦ act info i s
      ]
    ]

    go :
        (b : Bool)
        → IsTableKept
            (if◌then◌else◌ {A = ℤ × HandleTable × Option NotifyThread}
              (not b)
              (rc Status.outof_memory, t, none)
              found).1
    go false = h
    go true =
        on_service t handle serv_id udn (λ (r : ℤ × HandleTable × Option NotifyThread). r.1) act
          (rc Status.invalid_handle, t, none) (rc Status.invalid_service, t, none) h refl refl
          (λ info i s j k.
            put-Shrinks t handle info i s
              (init_found o text (initial_job handle udn serv_id sid) sid
                (get_subscription_sid sid now s)).1
              h j k
              (Shrinks-trans s (get_subscription_sid sid now s).1
                (init_found o text (initial_job handle udn serv_id sid) sid
                  (get_subscription_sid sid now s)).1
                (get-Shrinks sid now s)
                (init_found-Shrinks o text (initial_job handle udn serv_id sid) sid
                  (get_subscription_sid sid now s).0 (get_subscription_sid sid now s).1)))

-- What `genaNotifyAll` leaves: with this fuel its loop ends.
abbrev IsEventKept : Option (ℤ × HandleTable × List NotifyThread) → Type 0
IsEventKept none = Unit
IsEventKept (some r) = IsTableKept r.1

notified-IsEventKept :
    (memory : ℕ → Bool) (tpool : ℕ → ℤ) (event : NotifyThread) (now handle : ℤ) (t : HandleTable)
    (info : HandleInfo) (i : ℕ) (s : ServiceInfo)
    → IsTableKept t
    → IsInfoKept info
    → IsKept info.max_subscriptions s
    → IsEventKept (
        notified t handle info i
          (notify_service memory tpool event now (suc (length s.subscription_list)) s))
unfolding notified
notified-IsEventKept memory tpool event now handle t info i s h j k =
    let r = serve memory tpool event now 0 (pos 0) s.subscription_list in
    subst (λ o. IsEventKept (notified t handle info i o))
      (sym (
        notify_service_lem memory tpool event now (suc (length s.subscription_list)) s
          (omega arith)))
      (put-Shrinks t handle info i s (fewer s r.left r.freed) h j k
        (serve-Shrinks memory tpool event now s))

notify_all-IsEventKept :
    (before : Bool × Bool) (memory : ℕ → Bool) (tpool : ℕ → ℤ) (now : ℤ) (text : ℤ × List ℕ)
    (handle : ℤ) (udn serv_id : List ℕ) (t : HandleTable)
    → IsTableKept t
    → IsEventKept (notify_all before memory tpool now text handle udn serv_id t)
unfolding notify_all
notify_all-IsEventKept (copies, headers) memory tpool now (code, property_set) handle udn serv_id t
      h =
    go copies (eqb_ℤ code (pos 0)) headers (device_info t handle)
      (device_info-IsSlotKept t handle h)
  where
    event : NotifyThread
    event = event_of handle udn serv_id property_set

    at :
        (info : HandleInfo) (o : Option (ℕ × ServiceInfo))
        → IsInfoKept info
        → IsPairKept info.max_subscriptions o
        → IsEventKept (elim o [
          | none ↦ some (rc Status.invalid_service, t, [])
          | some (i, s) ↦
              notified t handle info i
                (notify_service memory tpool event now (suc (length s.subscription_list)) s)
        ])
    at info none j k = h
    at info (some (i, s)) j k = notified-IsEventKept memory tpool event now handle t info i s h j k

    go :
        (a b c : Bool) (o : Option HandleInfo)
        → IsSlotKept o
        → IsEventKept (
            if not a
            then some (rc Status.outof_memory, t, [])
            else if not b
            then some (code, t, [])
            else if not c
            then some (rc Status.outof_memory, t, [])
            else elim o [
              | none ↦ some (rc Status.invalid_handle, t, [])
              | some info ↦ elim (find_service info serv_id udn) [
                | none ↦ some (rc Status.invalid_service, t, [])
                | some (i, s) ↦
                    notified t handle info i
                      (notify_service memory tpool event now (suc (length s.subscription_list)) s)
              ]
            ])
    go false b c o j = h
    go true false c o j = h
    go true true false o j = h
    go true true true none j = h
    go true true true (some info) j =
        at info (find_service info serv_id udn) j (find_service-IsPairKept info serv_id udn j)

pub notify_all-IsTableKept :
    (before : Bool × Bool) (memory : ℕ → Bool) (tpool : ℕ → ℤ) (now : ℤ) (text : ℤ × List ℕ)
    (handle : ℤ) (udn serv_id : List ℕ) (t : HandleTable) (r : ℤ × HandleTable × List NotifyThread)
    → IsTableKept t
    → notify_all before memory tpool now text handle udn serv_id t ≡ some r
    → IsTableKept r.1
notify_all-IsTableKept before memory tpool now text handle udn serv_id t r h e =
    subst IsEventKept e (notify_all-IsEventKept before memory tpool now text handle udn serv_id t h)
