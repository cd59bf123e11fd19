-- ===== src/Gena/Kept/Operations.antt =====
-- Every call of src/gena/gena_server.c keeps the bookkeeping of the subscriptions.
use upnpsdk.Prelude.{
  ℕ, ◌≡◌, refl, sym, subst, Bool, true, false, not, Option, none, some, List, if◌then◌else◌, arith,
}
use upnpsdk.Prelude.Int.{ℤ, eqb_ℤ}
use upnpsdk.ServiceTable.{Subscription, ServiceInfo, get_subscription_sid, remove_subscription_sid}
use upnpsdk.Api.Handles.{HandleInfo, HandleTable}
use upnpsdk.Gena.{NotifyThread, device_info, find_service, put_service, update_sid}
use upnpsdk.Gena.Thread.{
  Start, dropped, start_found, thread_start, end_found, thread_end, sent, remove_sub,
}
use upnpsdk.Gena.Kept.{IsKept, IsInfoKept, IsSlotKept, IsTableKept}
use upnpsdk.Gena.Kept.Services.{
  Shrinks, Shrinks-IsKept, Shrinks-trans, remove-Shrinks, get-Shrinks, update-Shrinks,
}
use upnpsdk.Gena.Kept.Tables.{
  put_service-IsTableKept, device_info-IsSlotKept, IsPairKept, find_service-IsPairKept,
}

-- The shape of the calls: a device, a service of it by its names, and another state of that service.
pub on_service :
    {A : Type 0} (t : HandleTable) (handle : ℤ) (serv_id udn : List ℕ) (Out : A → HandleTable)
    (act : HandleInfo → ℕ → ServiceInfo → A) (no_device no_service : A)
    → IsTableKept t
    → Out no_device ≡ t
    → Out no_service ≡ t
    → ((info : HandleInfo) (i : ℕ) (s : ServiceInfo)
        → IsInfoKept info
        → IsKept info.max_subscriptions s
        → IsTableKept (Out (act info i s)))
    → IsTableKept (
        Out (elim (device_info t handle) [
          | none ↦ no_device
          | some info ↦ elim (find_service info serv_id udn) [
            | none ↦ no_service
            | some (i, s) ↦ act info i s
          ]
        ]))
on_service {A} t handle serv_id udn Out act no_device no_service h p q k =
    go (device_info t handle) (device_info-IsSlotKept t handle h)
  where
    at :
        (info : HandleInfo) (o : Option (ℕ × ServiceInfo))
        → IsInfoKept info
        → IsPairKept info.max_subscriptions o
        → IsTableKept (Out (elim o [ none ↦ no_service | some (i, s) ↦ act info i s ]))
    at info none j l = subst IsTableKept (sym q) h
    at info (some (i, s)) j l = k info i s j l

    go :
        (o : Option HandleInfo)
        → IsSlotKept o
        → IsTableKept (
            Out (elim o [
              | none ↦ no_device
              | some info ↦ elim (find_service info serv_id udn) [
                | none ↦ no_service
                | some (i, s) ↦ act info i s
              ]
            ]))
    go none j = subst IsTableKept (sym p) h
    go (some info) j =
        at info (find_service info serv_id udn) j (find_service-IsPairKept info serv_id udn j)

-- The service in its new state.
pub put-Shrinks :
    (t : HandleTable) (handle : ℤ) (info : HandleInfo) (i : ℕ) (s s' : ServiceInfo)
    → IsTableKept t
    → IsInfoKept info
    → IsKept info.max_subscriptions s
    → Shrinks s s'
    → IsTableKept (put_service t handle info i s')
put-Shrinks t handle info i s s' h j k r =
    put_service-IsTableKept t handle info i s' j (Shrinks-IsKept info.max_subscriptions s s' r k) h

pub start-IsTableKept :
    (copy_ok : Bool) (now : ℤ) (job : NotifyThread) (t : HandleTable)
    → IsTableKept t
    → IsTableKept (thread_start copy_ok now job t).1
unfolding thread_start
start-IsTableKept copy_ok now job t h =
    on_service t job.device_handle job.serv_id job.udn (λ (r : Start × HandleTable). r.1) _ _ _ h
      refl refl (λ info i s j k. go info i s j k s.active)
  where
    go :
        (info : HandleInfo) (i : ℕ) (s : ServiceInfo)
        → IsInfoKept info
        → IsKept info.max_subscriptions s
        → (b : Bool)
        → IsTableKept
            (if◌then◌else◌ {A = Start × HandleTable}
              (not b)
              (dropped, t)
              (
                start_found copy_ok job.event_key (get_subscription_sid job.sid now s).0,
                put_service t job.device_handle info i (get_subscription_sid job.sid now s).1,
              )).1
    go info i s j k true =
        put-Shrinks t job.device_handle info i s (get_subscription_sid job.sid now s).1 h j k
          (get-Shrinks job.sid now s)
    go info i s j k false = h

end-Shrinks :
    (code : ℤ) (sid : List ℕ) (o : Option Subscription) (s : ServiceInfo)
    → Shrinks s (end_found code sid (o, s))
unfolding end_found
end-Shrinks code sid none s = (λ k. k, omega arith)
end-Shrinks code sid (some u) s = go (eqb_ℤ code remove_sub)
  where
    counted : ServiceInfo
    counted = record s { subscription_list = update_sid sid sent s.subscription_list }

    go : (b : Bool) → Shrinks s (if b then remove_subscription_sid sid counted else counted)
    go true =
        Shrinks-trans s counted (remove_subscription_sid sid counted) (update-Shrinks sid sent s)
          (remove-Shrinks sid counted)
    go false = update-Shrinks sid sent s

pub end-IsTableKept :
    (code now : ℤ) (job : NotifyThread) (t : HandleTable)
    → IsTableKept t
    → IsTableKept (thread_end code now job t)
unfolding thread_end
end-IsTableKept code now job t h =
    on_service t job.device_handle job.serv_id job.udn (λ r. r) _ _ _ h refl refl
      (λ info i s j k. go info i s j k s.active)
  where
    go :
        (info : HandleInfo) (i : ℕ) (s : ServiceInfo)
        → IsInfoKept info
        → IsKept info.max_subscriptions s
        → (b : Bool)
        → IsTableKept (
            if not b
            then t
            else put_service t job.device_handle info i
                (end_found code job.sid (get_subscription_sid job.sid now s)))
    go info i s j k true =
        put-Shrinks t job.device_handle info i s
          (end_found code job.sid (get_subscription_sid job.sid now s)) h j k
          (Shrinks-trans s (get_subscription_sid job.sid now s).1
            (end_found code job.sid (get_subscription_sid job.sid now s))
            (get-Shrinks job.sid now s)
            (end-Shrinks code job.sid (get_subscription_sid job.sid now s).0
              (get_subscription_sid job.sid now s).1))
    go info i s j k false = h
