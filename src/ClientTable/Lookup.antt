-- ===== src/ClientTable/Lookup.antt =====
-- Removal and lookup in the list of src/genlib/client_table/client_table.c.
use upnpsdk.Prelude.{
  ap, ◌∙◌, append_assoc, ℕ, ◌≡◌, ◌≢◌, refl, inl, inr, true, none, some, List, [], ◌∷◌, ◌++◌, All,
  arith, if◌then◌else◌, str_eq, str_eq_iff, Bool-cases,
}
use upnpsdk.Prelude.Search.{starts_with}
use upnpsdk.Timer.{Timer, remove_timer_event}
use upnpsdk.ClientTable.{
  ClientSubscription, free_client_subscription, free_client_sub_list, remove_client_sub_client_sid,
  get_client_sub_client_sid, get_client_sub_actual_sid,
}

-- No two nodes have one identifier.
abbrev pub HasUniqueSids : List ClientSubscription → Type 0
HasUniqueSids [] = Unit {0}
HasUniqueSids (s ∷ l) = All (λ u. u.sid ≢ s.sid) l × HasUniqueSids l

get-missing :
    (l : List ClientSubscription) (sid : List ℕ)
    → All (λ u. u.sid ≢ sid) l
    → get_client_sub_client_sid l sid ≡ none
unfolding get_client_sub_client_sid
get-missing [] sid h = refl
get-missing (s ∷ l) sid h = ground (arith, str_eq_iff s.sid sid, get-missing l sid h.1)

All-remove :
    (P : ClientSubscription → Type 0) (l : List ClientSubscription) (sid : List ℕ) (t : Timer)
    → All P l
    → All P (remove_client_sub_client_sid l sid t).0
unfolding remove_client_sub_client_sid
All-remove P [] sid t h = tt
All-remove P (s ∷ l) sid t h = elim (Bool-cases (str_eq sid s.sid)) [
  | inl hit ↦ rw hit h.1
  | inr miss ↦ rw miss (h.0, All-remove P l sid t h.1)
]

-- `RemoveClientSubClientSID` keeps the identifiers distinct.
pub remove-HasUniqueSids :
    (l : List ClientSubscription) (sid : List ℕ) (t : Timer)
    → HasUniqueSids l
    → HasUniqueSids (remove_client_sub_client_sid l sid t).0
unfolding remove_client_sub_client_sid
remove-HasUniqueSids [] sid t h = tt
remove-HasUniqueSids (s ∷ l) sid t h = elim (Bool-cases (str_eq sid s.sid)) [
  | inl hit ↦ rw hit h.1
  | inr miss ↦
      rw miss (All-remove (λ u. u.sid ≢ s.sid) l sid t h.0, remove-HasUniqueSids l sid t h.1)
]

-- With distinct identifiers, after `RemoveClientSubClientSID` the identifier is not found, and every
-- other one is found as before.
pub get-remove :
    (l : List ClientSubscription) (sid other : List ℕ) (t : Timer)
    → HasUniqueSids l
    → get_client_sub_client_sid (remove_client_sub_client_sid l sid t).0 other
      ≡ (if str_eq sid other then none else get_client_sub_client_sid l other)
unfolding get_client_sub_client_sid remove_client_sub_client_sid
get-remove [] sid other t h = ground arith
get-remove (s ∷ l) sid other t h = ground (
  arith,
  get-remove l sid other t h.1,
  str_eq_iff sid other,
  str_eq_iff sid s.sid,
  str_eq_iff s.sid other,
  get-missing l s.sid h.0,
)

-- `RemoveClientSubClientSID` takes the renewal of the subscription that it removes out of the timer,
-- and touches the timer only then.
pub remove-timer :
    (l : List ClientSubscription) (sid : List ℕ) (t : Timer)
    → (remove_client_sub_client_sid l sid t).1 ≡ elim (get_client_sub_client_sid l sid) [
      | none ↦ t
      | some s ↦ (remove_timer_event s.renew_event_id none t).2
    ]
unfolding remove_client_sub_client_sid get_client_sub_client_sid free_client_sub_list
    free_client_subscription
remove-timer [] sid t = refl
remove-timer (s ∷ l) sid t =
    ground (arith, remove-timer l sid t, str_eq_iff sid s.sid, str_eq_iff s.sid sid)

starts_with-append : (p r : List ℕ) → starts_with p (p ++ r) ≡ true
unfolding starts_with
starts_with-append [] r = refl
starts_with-append (c ∷ p) r = ground (arith, starts_with-append p r)

-- `GetClientSubActualSID` takes a token that is only the beginning of an identifier, the empty one
-- included, for the identifier: it returns the first subscription, whatever follows in it.
pub actual_sid_prefix :
    (s : ClientSubscription) (l : List ClientSubscription) (token more : List ℕ)
    → s.actual_sid ≡ token ++ more
    → get_client_sub_actual_sid (s ∷ l) token ≡ some s
unfolding get_client_sub_actual_sid
actual_sid_prefix s l token more e =
    let fits : starts_with token (s.actual_sid ++ (0 ∷ [])) ≡ true =
      ap (λ x. starts_with token (x ++ (0 ∷ []))) e
      ∙ ap (starts_with token) (append_assoc token more (0 ∷ []))
      ∙ starts_with-append token (more ++ (0 ∷ [])) in
    rw fits
