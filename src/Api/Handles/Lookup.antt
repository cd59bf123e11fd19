-- ===== src/Api/Handles/Lookup.antt =====
-- The lookups of src/api/upnpapi.c in the table of handles, after a registration and after
-- `FreeHandle`.
use upnpsdk.Prelude.{
  ℕ, zero, suc, ◌≤◌, ◌<◌, ◌≡◌, ◌≢◌, refl, ap, ◌∙◌, true, Option, none, some, [], ◌∷◌, arith,
  if◌then◌else◌, ◌==◌, length,
}
use upnpsdk.Prelude.Int.{ℤ, pos, eqb_ℤ}
use upnpsdk.Prelude.Search.{is_some}
use upnpsdk.Codes.{Status, rc}
use upnpsdk.Api.Handles.{
  HandleInfo, HandleTable, num_handle, slot, put, index, handle_type_value, client_info,
  get_handle_info, free_handle, register_client,
}
use upnpsdk.Api.Handles.Free.{found, full, get_free_handle-Free}

pub slot-put :
    (n m : ℕ) (v : Option HandleInfo) (t : HandleTable)
    → n < length t
    → slot m (put n v t) ≡ (if n == m then v else slot m t)
unfolding slot put
slot-put n m v [] h = absurd (omega arith)
slot-put zero zero v (s ∷ t) h = refl
slot-put zero (suc m) v (s ∷ t) h = ground arith
slot-put (suc n) zero v (s ∷ t) h = ground arith
slot-put (suc n) (suc m) v (s ∷ t) h = slot-put n m v t (omega arith) ∙ ground arith

pub length-put : (n : ℕ) (v : Option HandleInfo) (t : HandleTable) → length (put n v t) ≡ length t
unfolding put
length-put n v [] = refl
length-put zero v (s ∷ t) = refl
length-put (suc n) v (s ∷ t) = ap suc (length-put n v t)

-- After `FreeHandle` on a handle in a table of 200 slots, `GetHandleInfo` refuses that handle and
-- gives for every other one what it gave before; the table keeps its size.
pub get-free :
    (t : HandleTable) (h other : ℤ) (old : Option HandleInfo)
    → length t ≡ num_handle
    → (get_handle_info (free_handle t h).1 other old
        ≡ (if eqb_ℤ h other then (rc Status.invalid_handle, old) else get_handle_info t other old))
      × (length (free_handle t h).1 ≡ num_handle)
unfolding get_handle_info free_handle
get-free t h other old e = (
  ground (arith, slot-put (index h) (index other) none t, e),
  ground (arith, length-put (index h) none t, e),
)

-- What a registration makes of the table.
pub data Registers (info : HandleInfo) (t : HandleTable) (r : ℤ × Option ℤ × HandleTable)
    : Type 0 where
  given :
      (n : ℕ)
      → r.0 ≡ rc Status.success
      → r.1 ≡ some (pos n)
      → 1 ≤ n
      → n < 199
      → slot n t ≡ none
      → ((h : ℤ) (before : Option HandleInfo)
          → get_handle_info r.2 h before ≡ (
              if eqb_ℤ h (pos n)
              then (handle_type_value info.htype, some info)
              else get_handle_info t h before))
      → length r.2 ≡ num_handle
      → Registers info t r
  refused :
      r.0 ≡ rc Status.outof_memory
      → r.2 ≡ t
      → ((k : ℕ) → 1 ≤ k → k < 199 → is_some (slot k t) ≡ true)
      → Registers info t r

get-put :
    (t : HandleTable) (n : ℕ) (info : HandleInfo) (h : ℤ) (before : Option HandleInfo)
    → length t ≡ num_handle
    → 1 ≤ n
    → n < 199
    → get_handle_info (put n (some info) t) h before ≡ (
        if eqb_ℤ h (pos n)
        then (handle_type_value info.htype, some info)
        else get_handle_info t h before)
unfolding get_handle_info
get-put t n info h before e a b = ground (arith, slot-put n (index h) (some info) t, e)

-- With the library initialised, a callback and memory, `UpnpRegisterClient` on a table of 200 slots
-- takes a free handle from 1 to 198, under which `GetHandleInfo` then finds a new control point while
-- it finds under every other handle what it found before; or all of these handles are taken, and it
-- returns UPNP_E_OUTOF_MEMORY and leaves the table.
pub register_client-Registers :
    (fun cookie : ℕ) (old : ℤ) (t : HandleTable)
    → length t ≡ num_handle
    → fun ≢ 0
    → Registers (client_info fun cookie) t (register_client (pos 1) true fun cookie (some old) t)
unfolding register_client rc
register_client-Registers fun cookie old t e f = elim (get_free_handle-Free t e) [
  | found n p a b s u ↦
      let r : register_client (pos 1) true fun cookie (some old) t
          ≡ (rc Status.success, some (pos n), put n (some (client_info fun cookie)) t) =
        grind (arith, p, f) in
      rw r (
        given n refl refl a b s (λ h before. get-put t n (client_info fun cookie) h before e a b)
          (length-put n (some (client_info fun cookie)) t ∙ e))
  | full p u ↦
      let r : register_client (pos 1) true fun cookie (some old) t
          ≡ (rc Status.outof_memory, some (rc Status.outof_handle), t) =
        grind (arith, p, f) in
      rw r (refused refl refl u)
]
