-- ===== src/Gena/Kept/Tables.antt =====
-- The bookkeeping of the whole table of handles through the lookups and stores of
-- src/gena/gena_server.c.
use upnpsdk.Prelude.{
  ℕ, zero, suc, Bool, true, false, not, Option, none, some, List, [], ◌∷◌, All, if◌then◌else◌,
  get_elem?, set_elem,
}
use upnpsdk.Prelude.Int.{ℤ, pos, negsuc, eqb_ℤ}
use upnpsdk.ServiceTable.{ServiceInfo, find_service_id}
use upnpsdk.Api.Handles.{
  HandleInfo, HandleTable, slot, put, index, out_of_range, get_handle_info, get_typed_handle_info,
  get_device_handle_info, handle_type_value, hnd_invalid,
}
use upnpsdk.Codes.{Status, rc}
use upnpsdk.ServiceTable.ByUrl.{find_service_event_url_path}
use upnpsdk.Gena.{device_info, find_service, with_service, put_service}
use upnpsdk.Gena.Requests.{Search, Served, served_at, event_service}
use upnpsdk.Gena.Kept.{IsKept, IsInfoKept, IsSlotKept, IsTableKept}

slot-IsSlotKept : (n : ℕ) (t : HandleTable) → IsTableKept t → IsSlotKept (slot n t)
unfolding slot
slot-IsSlotKept n [] h = tt
slot-IsSlotKept zero (s ∷ t) h = h.0
slot-IsSlotKept (suc n) (s ∷ t) h = slot-IsSlotKept n t h.1

pub put-IsTableKept :
    (n : ℕ) (v : Option HandleInfo) (t : HandleTable)
    → IsSlotKept v
    → IsTableKept t
    → IsTableKept (put n v t)
unfolding put
put-IsTableKept n v [] k h = tt
put-IsTableKept zero v (s ∷ t) k h = (k, h.1)
put-IsTableKept (suc n) v (s ∷ t) k h = (h.0, put-IsTableKept n v t k h.1)

set-IsKept :
    (limit : ℤ) (i : ℕ) (s : ServiceInfo) (l : List ServiceInfo)
    → IsKept limit s
    → All (IsKept limit) l
    → All (IsKept limit) (set_elem i s l)
set-IsKept limit i s [] k h = tt
set-IsKept limit zero s (x ∷ l) k h = (k, h.1)
set-IsKept limit (suc i) s (x ∷ l) k h = (h.0, set-IsKept limit i s l k h.1)

abbrev IsFoundKept : ℤ → Option ServiceInfo → Type 0
IsFoundKept limit none = Unit
IsFoundKept limit (some s) = IsKept limit s

get-IsFoundKept :
    (limit : ℤ) (i : ℕ) (l : List ServiceInfo)
    → All (IsKept limit) l
    → IsFoundKept limit (get_elem? l i)
get-IsFoundKept limit i [] h = tt
get-IsFoundKept limit zero (x ∷ l) h = h.0
get-IsFoundKept limit (suc i) (x ∷ l) h = get-IsFoundKept limit i l h.1

-- Another state of one service.
pub put_service-IsTableKept :
    (t : HandleTable) (handle : ℤ) (info : HandleInfo) (i : ℕ) (s : ServiceInfo)
    → IsInfoKept info
    → IsKept info.max_subscriptions s
    → IsTableKept t
    → IsTableKept (put_service t handle info i s)
put_service-IsTableKept t handle info i s j k h =
    put-IsTableKept (index handle) (some (with_service info i s)) t
      (set-IsKept info.max_subscriptions i s info.service_table.service_list k j) h

get_handle_info-IsSlotKept :
    (t : HandleTable) (handle : ℤ) (old : Option HandleInfo)
    → IsSlotKept old
    → IsTableKept t
    → IsSlotKept (get_handle_info t handle old).1
unfolding get_handle_info
get_handle_info-IsSlotKept t handle old k h =
    go (out_of_range handle) (slot (index handle) t) (slot-IsSlotKept (index handle) t h)
  where
    go :
        (b : Bool) (o : Option HandleInfo)
        → IsSlotKept o
        → IsSlotKept
            (if◌then◌else◌ {A = ℤ × Option HandleInfo} b
              (rc Status.invalid_handle, old)
              (elim o [
                | none ↦ (rc Status.invalid_handle, old)
                | some info ↦ (handle_type_value info.htype, some info)
              ])).1
    go true o j = k
    go false none j = k
    go false (some info) j = j

pub device_info-IsSlotKept :
    (t : HandleTable) (handle : ℤ) → IsTableKept t → IsSlotKept (device_info t handle)
unfolding device_info
device_info-IsSlotKept t handle h =
    let (type, info) = get_handle_info t handle none in
    go (eqb_ℤ (get_handle_info t handle none).0 (pos 1)) (get_handle_info t handle none).1
      (get_handle_info-IsSlotKept t handle none tt h)
  where
    go : (b : Bool) (o : Option HandleInfo) → IsSlotKept o → IsSlotKept (if b then o else none)
    go true o j = j
    go false o j = tt

-- The service that was found, in its place.
abbrev pub IsPairKept : ℤ → Option (ℕ × ServiceInfo) → Type 0
IsPairKept limit none = Unit
IsPairKept limit (some (i, s)) = IsKept limit s

pub find_service-IsPairKept :
    (info : HandleInfo) (id udn : List ℕ)
    → IsInfoKept info
    → IsPairKept info.max_subscriptions (find_service info id udn)
unfolding find_service
find_service-IsPairKept info id udn h = go (find_service_id info.service_table.service_list id udn)
  where
    at :
        (i : ℕ) (o : Option ServiceInfo)
        → IsFoundKept info.max_subscriptions o
        → IsPairKept info.max_subscriptions
            (elim o [ none ↦ none | some service ↦ some (i, service) ])
    at i none k = tt
    at i (some s) k = k

    go :
        (o : Option ℕ)
        → IsPairKept info.max_subscriptions (elim o [
          | none ↦ none
          | some i ↦ elim (get_elem? info.service_table.service_list i) [
            | none ↦ none
            | some service ↦ some (i, service)
          ]
        ])
    go none = tt
    go (some i) =
        at i (get_elem? info.service_table.service_list i)
          (get-IsFoundKept info.max_subscriptions i info.service_table.service_list h)

abbrev pub IsServedKept : Option Served → Type 0
IsServedKept none = Unit
IsServedKept (some f) = IsInfoKept f.info × IsKept f.info.max_subscriptions f.service

served_at-IsServedKept :
    (handle : ℤ) (info : HandleInfo) (o : Option ℕ)
    → IsInfoKept info
    → IsServedKept (served_at handle info o)
unfolding served_at
served_at-IsServedKept handle info none h = tt
served_at-IsServedKept handle info (some i) h =
    go (get_elem? info.service_table.service_list i)
      (get-IsFoundKept info.max_subscriptions i info.service_table.service_list h)
  where
    active :
        (b : Bool) (s : ServiceInfo)
        → IsKept info.max_subscriptions s
        → IsServedKept (
            if b
            then some (record { handle = handle; info = info; position = i; service = s })
            else none)
    active true s k = (h, k)
    active false s k = tt

    go :
        (o : Option ServiceInfo)
        → IsFoundKept info.max_subscriptions o
        → IsServedKept (elim o [
          | none ↦ none
          | some s ↦
              if s.active
              then some (record { handle = handle; info = info; position = i; service = s })
              else none
        ])
    go none k = tt
    go (some s) k = active s.active s k

device_handle-IsSlotKept :
    (t : HandleTable) → IsTableKept t → IsSlotKept (get_device_handle_info t none).2
unfolding get_device_handle_info get_typed_handle_info
device_handle-IsSlotKept t h =
    let first = get_handle_info-IsSlotKept t (pos 1) none tt h in
    let last = get_handle_info-IsSlotKept t (pos 2) (get_handle_info t (pos 1) none).1 first h in
    go (eqb_ℤ (get_handle_info t (pos 1) none).0 (pos 1))
      (eqb_ℤ (get_handle_info t (pos 2) (get_handle_info t (pos 1) none).1).0 (pos 1)) _ _ first
      last
  where
    go :
        (a b : Bool) (x y : Option HandleInfo)
        → IsSlotKept x
        → IsSlotKept y
        → IsSlotKept
            (if◌then◌else◌ {A = ℤ × ℤ × Option HandleInfo} a
              (pos 1, pos 1, x)
              (if b then (pos 1, pos 2, y) else (hnd_invalid, negsuc 0, y))).2
    go true b x y j k = j
    go false true x y j k = k
    go false false x y j k = k

pub event_service-IsServedKept :
    (s : Search) (t : HandleTable) (path : List ℕ)
    → IsTableKept t
    → IsServedKept (event_service s t path)
unfolding event_service
event_service-IsServedKept s t path h =
    go (eqb_ℤ (get_device_handle_info t none).0 (pos 1)) (get_device_handle_info t none).1
      (get_device_handle_info t none).2 (device_handle-IsSlotKept t h)
  where
    go :
        (b : Bool) (handle : ℤ) (o : Option HandleInfo)
        → IsSlotKept o
        → IsServedKept (
            if not b then none else elim o [
              | none ↦ none
              | some info ↦ served_at handle info (
                  find_service_event_url_path s.outside.resolve s.outside.malloc_ok s.wanted
                    s.parsed info.service_table.service_list path)
            ])
    go true handle none k = tt
    go true handle (some info) k =
        served_at-IsServedKept handle info
          (find_service_event_url_path s.outside.resolve s.outside.malloc_ok s.wanted s.parsed
            info.service_table.service_list path)
          k
    go false handle o k = tt
