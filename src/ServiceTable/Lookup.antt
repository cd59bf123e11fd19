-- ===== src/ServiceTable/Lookup.antt =====
-- Removal and lookup in the subscription list of a service, as
-- src/genlib/service_table/service_table.c makes them.
use upnpsdk.Prelude.{
  ℕ, suc, ◌+◌, ◌≡◌, ◌≢◌, refl, sym, ap, ◌∙◌, none, some, List, [], ◌∷◌, ◌++◌, All, arith,
  if◌then◌else◌, str_eq, str_eq_iff, str_eq→eq, length, length-append, length-take, length-drop,
  take, drop,
}
use upnpsdk.Prelude.Int.{ℤ, pos, ◌-ℤ◌, sub_zero, sub_pos}
use upnpsdk.ServiceTable.{
  Subscription, ServiceInfo, unlink, remove_subscription_sid, is_expired, find_sid,
  get_subscription_sid, skip, get_next_subscription, get_first_subscription,
}

-- The count is the number of nodes.
abbrev pub IsCounted : ServiceInfo → Type 0
IsCounted s = s.total_subscriptions ≡ pos (length s.subscription_list)

-- No two nodes have one identifier.
abbrev pub HasUniqueSids : List Subscription → Type 0
HasUniqueSids [] = Unit {0}
HasUniqueSids (s ∷ l) = All (λ u. u.sid ≢ s.sid) l × HasUniqueSids l

pub minus : (t : ℤ) (n m k : ℕ) → t ≡ pos n → n ≡ m + k → t -ℤ pos k ≡ pos m
minus t n m k h e = ap (λ x. x -ℤ pos k) h ∙ sub_pos n k (omega arith) ∙ ap pos (omega arith)

pub length-unlink :
    (sid : List ℕ) (l : List Subscription)
    → length l ≡ length (unlink sid l).1 + (if (unlink sid l).0 then 1 else 0)
unfolding unlink
length-unlink sid [] = refl
length-unlink sid (s ∷ l) = ground (arith, length-unlink sid l)

-- `RemoveSubscriptionSID` keeps the count equal to the number of subscriptions, whether or not the
-- identifier is there.
pub remove-IsCounted :
    (sid : List ℕ) (s : ServiceInfo) → IsCounted s → IsCounted (remove_subscription_sid sid s)
unfolding remove_subscription_sid
remove-IsCounted sid s h = ground (
  arith,
  h,
  sub_zero s.total_subscriptions,
  length-unlink sid s.subscription_list,
  minus s.total_subscriptions (length s.subscription_list)
      (length (unlink sid s.subscription_list).1) 1 h,
)

find-missing :
    (sid : List ℕ) (l : List Subscription) → All (λ u. u.sid ≢ sid) l → find_sid sid l ≡ none
unfolding find_sid
find-missing sid [] h = refl
find-missing sid (s ∷ l) h = ground (arith, str_eq_iff s.sid sid, find-missing sid l h.1)

pub find-unlink :
    (sid other : List ℕ) (l : List Subscription)
    → HasUniqueSids l
    → find_sid other (unlink sid l).1 ≡ (if str_eq sid other then none else find_sid other l)
unfolding find_sid unlink
find-unlink sid other [] h = ground arith
find-unlink sid other (s ∷ l) h = ground (
  arith,
  find-unlink sid other l h.1,
  str_eq_iff sid other,
  str_eq_iff sid s.sid,
  str_eq_iff s.sid other,
  find-missing s.sid l h.0,
)

-- With distinct identifiers, `GetSubscriptionSID` returns the subscription of the identifier unless
-- it has expired, in which case the subscription is gone afterwards; every other one is found as
-- before.
pub get_subscription_sid_lem :
    (sid other : List ℕ) (now : ℤ) (s : ServiceInfo)
    → HasUniqueSids s.subscription_list
    → (get_subscription_sid sid now s).0 ≡ elim (find_sid sid s.subscription_list) [
      | none ↦ none
      | some u ↦ if is_expired now u then none else some u
    ]
      × (find_sid other (get_subscription_sid sid now s).1.subscription_list ≡ (
          if str_eq sid other
          then (get_subscription_sid sid now s).0
          else find_sid other s.subscription_list))
unfolding get_subscription_sid remove_subscription_sid
get_subscription_sid_lem sid other now s h =
    ground (arith, find-unlink sid other s.subscription_list h, str_eq→eq sid other)

length-Skips :
    (now : ℤ) (l : List Subscription) → length (skip now l).kept + (skip now l).freed ≡ length l
unfolding skip
length-Skips now [] = refl
length-Skips now (s ∷ l) = ground (arith, length-Skips now l)

-- `GetFirstSubscription` and `GetNextSubscription`, from any position, keep the count equal to the
-- number of subscriptions.
pub traversal-IsCounted :
    (now : ℤ) (s : ServiceInfo) (current : ℕ)
    → IsCounted s
    → IsCounted (get_first_subscription now s).1 × IsCounted (get_next_subscription now s current).1
unfolding get_first_subscription get_next_subscription
traversal-IsCounted now s current h =
    let l = s.subscription_list in
    let behind_it = drop (suc current) l in
    (
      minus s.total_subscriptions (length l) (length (skip now l).kept) (skip now l).freed h
          (sym (length-Skips now l)),
      minus s.total_subscriptions (length l)
          (length (take (suc current) l ++ (skip now behind_it).kept)) (skip now behind_it).freed h
          (grind (
            arith,
            length-append (take (suc current) l) (skip now behind_it).kept,
            length-Skips now behind_it,
            length-take (suc current) l,
            length-drop (suc current) l,
          )),
    )
