-- ===== src/Gena/Directory.antt =====
-- The subscriptions of a service as a map from identifiers, which is all that src/gena/gena_server.c
-- looks at but for the traversal, and the changes that it makes to the list.
use upnpsdk.Prelude.{
  ℕ, ◌≡◌, ◌≢◌, refl, sym, ap, ◌∙◌, subst, Bool, true, false, Option, none, some, List, [], ◌∷◌, All,
  arith, if◌then◌else◌, str_eq, str_eq→eq,
}
use upnpsdk.Prelude.Int.{ℤ, eqb_ℤ}
use upnpsdk.ServiceTable.{Subscription, ServiceInfo, find_sid, remove_subscription_sid}
use upnpsdk.ServiceTable.Lookup.{HasUniqueSids, find-unlink}
use upnpsdk.Gena.{update_sid}
use upnpsdk.Gena.Thread.{end_found, sent, remove_sub}

abbrev pub Directory : Type 0
Directory = List ℕ → Option Subscription

abbrev pub changed : List ℕ → (Subscription → Subscription) → Directory → Directory
changed sid f d k = if str_eq sid k then (elim (d k) [ none ↦ none | some s ↦ some (f s) ]) else d k

abbrev pub without : List ℕ → Directory → Directory
without sid d k = if str_eq sid k then none else d k

abbrev pub view : List Subscription → Directory
view l k = find_sid k l

-- A change that leaves the identifier alone.
abbrev pub KeepsSid : (Subscription → Subscription) → Type 0
KeepsSid f = (s : Subscription) → (f s).sid ≡ s.sid

pub view-update :
    (sid : List ℕ) (f : Subscription → Subscription) (l : List Subscription) (k : List ℕ)
    → KeepsSid f
    → view (update_sid sid f l) k ≡ changed sid f (view l) k
unfolding update_sid find_sid
view-update sid f [] k h = ground arith
view-update sid f (s ∷ l) k h =
    go (str_eq s.sid sid) (str_eq sid k) refl refl (view-update sid f l k h)
  where
    go :
        (a b : Bool)
        → str_eq s.sid sid ≡ a
        → str_eq sid k ≡ b
        → view (update_sid sid f l) k ≡ changed sid f (view l) k
        → view (update_sid sid f (s ∷ l)) k ≡ changed sid f (view (s ∷ l)) k
    go true true ha hb ih =
        let e : str_eq s.sid k ≡ true = ap (λ x. str_eq x k) (str_eq→eq s.sid sid ha) ∙ hb in
        let e' : str_eq (f s).sid k ≡ true = ap (λ x. str_eq x k) (h s) ∙ e in
        rw (ha, e', e, hb) refl
    go true false ha hb ih =
        let e : str_eq s.sid k ≡ false = ap (λ x. str_eq x k) (str_eq→eq s.sid sid ha) ∙ hb in
        let e' : str_eq (f s).sid k ≡ false = ap (λ x. str_eq x k) (h s) ∙ e in
        rw (ha, e', e, hb) refl
    go false true ha hb ih =
        let e : str_eq s.sid k ≡ false = ap (str_eq s.sid) (sym (str_eq→eq sid k hb)) ∙ ha in
        rw (ha, e, hb) (ih ∙ rw hb refl)
    go false false ha hb ih = rw (ha, hb, ih) (rw hb refl)

update-All :
    (sid x : List ℕ) (f : Subscription → Subscription) (l : List Subscription)
    → KeepsSid f
    → All (λ u. u.sid ≢ x) l
    → All (λ u. u.sid ≢ x) (update_sid sid f l)
unfolding update_sid
update-All sid x f [] k h = tt
update-All sid x f (s ∷ l) k h = go (str_eq s.sid sid) (update-All sid x f l k h.1)
  where
    go :
        (b : Bool)
        → All (λ u. u.sid ≢ x) (update_sid sid f l)
        → All (λ u. u.sid ≢ x) (if b then f s ∷ l else s ∷ update_sid sid f l)
    go true p = ((λ e. h.0 (sym (k s) ∙ e)), h.1)
    go false p = (h.0, p)

pub update-HasUniqueSids :
    (sid : List ℕ) (f : Subscription → Subscription) (l : List Subscription)
    → KeepsSid f
    → HasUniqueSids l
    → HasUniqueSids (update_sid sid f l)
unfolding update_sid
update-HasUniqueSids sid f [] k h = tt
update-HasUniqueSids sid f (s ∷ l) k h =
    go (str_eq s.sid sid) (update-All sid s.sid f l k h.0) (update-HasUniqueSids sid f l k h.1)
  where
    go :
        (b : Bool)
        → All (λ u. u.sid ≢ s.sid) (update_sid sid f l)
        → HasUniqueSids (update_sid sid f l)
        → HasUniqueSids (if b then f s ∷ l else s ∷ update_sid sid f l)
    go true p q = (subst (λ x. All (λ u. u.sid ≢ x) l) (sym (k s)) h.0, h.1)
    go false p q = (p, q)

-- What the end of a job does to a service whose identifiers are distinct, as a change of the map: the
-- subscription of the job is taken out when the reply of the control point was 412, and else its next
-- key is the next one; nothing else changes.
pub end_found-refines :
    (code : ℤ) (sid : List ℕ) (u : Subscription) (s : ServiceInfo) (k : List ℕ)
    → HasUniqueSids s.subscription_list
    → view (end_found code sid (some u, s)).subscription_list k ≡ (
        if eqb_ℤ code remove_sub
        then without sid (view s.subscription_list) k
        else changed sid sent (view s.subscription_list) k)
unfolding end_found remove_subscription_sid
end_found-refines code sid u s k h = go (eqb_ℤ code remove_sub)
  where
    list : List Subscription
    list = update_sid sid sent s.subscription_list

    counted : ServiceInfo
    counted = record s { subscription_list = list }

    go :
        (b : Bool)
        → view (if b then remove_subscription_sid sid counted else counted).subscription_list k ≡ (
            if b
            then without sid (view s.subscription_list) k
            else changed sid sent (view s.subscription_list) k)
    go false = view-update sid sent s.subscription_list k (λ s. refl)
    go true =
        find-unlink sid k list (update-HasUniqueSids sid sent s.subscription_list (λ s. refl) h)
        ∙ dec (str_eq sid k) refl
      where
        dec :
            (c : Bool)
            → str_eq sid k ≡ c
            → (if str_eq sid k then none else find_sid k list)
              ≡ without sid (view s.subscription_list) k
        dec true e = rw e refl
        dec false e = rw e (view-update sid sent s.subscription_list k (λ s. refl) ∙ rw e refl)
