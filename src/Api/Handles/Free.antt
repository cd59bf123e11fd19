-- ===== src/Api/Handles/Free.antt =====
-- `GetFreeHandle` of src/api/upnpapi.c.
use upnpsdk.Prelude.{
  ℕ, zero, suc, ◌+◌, ◌≤◌, ◌<◌, ◌≡◌, refl, ap, ◌∙◌, inl, inr, true, Option, none, some, [], ◌∷◌,
  arith, ◌==◌, length, Bool-cases,
}
use upnpsdk.Prelude.Int.{ℤ, pos}
use upnpsdk.Prelude.Search.{is_some}
use upnpsdk.Codes.{Status, rc}
use upnpsdk.Api.Handles.{HandleInfo, HandleTable, num_handle, free_from, get_free_handle, slot}

-- What `GetFreeHandle` may return for a table.
pub data Free (t : HandleTable) (h : ℤ) : Type 0 where
  found :
      (n : ℕ)
      → h ≡ pos n
      → 1 ≤ n
      → n < 199
      → slot n t ≡ none
      → ((k : ℕ) → 1 ≤ k → k < n → is_some (slot k t) ≡ true)
      → Free t h
  full :
      h ≡ rc Status.outof_handle
      → ((k : ℕ) → 1 ≤ k → k < 199 → is_some (slot k t) ≡ true)
      → Free t h

-- The first free slot of the rest of the table, or the end.
data Ends (i : ℕ) (slots : HandleTable) : Type 0 where
  at :
      (n : ℕ)
      → free_from i slots ≡ i + n + 1
      → n < length slots
      → slot n slots ≡ none
      → ((k : ℕ) → k < n → is_some (slot k slots) ≡ true)
      → Ends i slots
  never :
      free_from i slots ≡ i + length slots
      → ((k : ℕ) → k < length slots → is_some (slot k slots) ≡ true)
      → Ends i slots

used_suc :
    (info : HandleInfo) (slots : HandleTable) (n : ℕ)
    → ((k : ℕ) → k < n → is_some (slot k slots) ≡ true)
    → (k : ℕ) → k < suc n
    → is_some (slot k (some info ∷ slots)) ≡ true
unfolding slot
used_suc info slots n u zero h = refl
used_suc info slots n u (suc k) h = u k (omega arith)

used_behind :
    (first : Option HandleInfo) (slots : HandleTable) (n : ℕ)
    → ((k : ℕ) → k < n → is_some (slot k slots) ≡ true)
    → (k : ℕ) → 1 ≤ k
    → k < suc n
    → is_some (slot k (first ∷ slots)) ≡ true
unfolding slot
used_behind first slots n u zero h h' = absurd (omega arith)
used_behind first slots n u (suc k) h h' = u k (omega arith)

free_from-Ends : (i : ℕ) (slots : HandleTable) → Ends i slots
unfolding free_from slot
free_from-Ends i [] = never (omega arith) (λ k h. absurd (omega arith))
free_from-Ends i (none ∷ slots) =
    at 0 (omega arith) (omega arith) refl (λ k h. absurd (omega arith))
free_from-Ends i (some info ∷ slots) = elim (free_from-Ends (i + 1) slots) [
  | at n e b s u ↦ at (suc n) (e ∙ omega arith) (omega arith) s (used_suc info slots n u)
  | never e u ↦ never (e ∙ omega arith) (used_suc info slots (length slots) u)
]

-- For the table of 200 slots, `GetFreeHandle` returns the first free handle from 1 to 198, and
-- UPNP_E_OUTOF_HANDLE exactly when none of these is free. So handle 199, which is in the range that
-- `GetHandleInfo` takes, is never given out.
pub get_free_handle-Free : (t : HandleTable) → length t ≡ num_handle → Free t (get_free_handle t)
unfolding get_free_handle slot
get_free_handle-Free [] h = absurd (omega arith)
get_free_handle-Free (first ∷ slots) h = elim (free_from-Ends 1 slots) [
  | at n e b s u ↦ elim (Bool-cases (free_from 1 slots == num_handle)) [
    | inl end ↦
        full (rw end refl) (λ k h1 h2. used_behind first slots n u k h1 (grind (arith, end)))
    | inr before ↦
        found (suc n) (rw before (ap pos (omega arith))) (omega arith) (grind (arith, before)) s
          (used_behind first slots n u)
  ]
  | never e u ↦
      full (ground arith) (λ k h1 h2. used_behind first slots (length slots) u k h1 (omega arith))
]
