-- ===== src/Gena/Kept/Services.antt =====
-- What the operations of src/gena/gena_server.c on one service do to its bookkeeping.
use upnpsdk.Prelude.{
  ℕ, suc, ◌+◌, ◌≤◌, ◌≡◌, refl, sym, ap, ◌∙◌, inl, inr, Bool, true, false, Option, none, some, List,
  [], ◌∷◌, arith, if◌then◌else◌, length, Bool-cases,
}
use upnpsdk.Prelude.Int.{ℤ, pos, negsuc, ◌+ℤ◌, eqb_ℤ, leb_ℤ, eqb_ℤ→eq}
use upnpsdk.ServiceTable.{
  Subscription, ServiceInfo, is_expired, remove_subscription_sid, get_subscription_sid, find_sid,
}
use upnpsdk.ServiceTable.Traversal.{fewer}
use upnpsdk.ServiceTable.Lookup.{IsCounted, minus, length-unlink, remove-IsCounted}
use upnpsdk.Api.Handles.{HandleInfo}
use upnpsdk.Gena.{NotifyThread, update_sid}
use upnpsdk.Gena.Notify.Serve.{Served, serve, serve_one}
use upnpsdk.Gena.Notify.Rounds.{serve_at}
use upnpsdk.Gena.Subscribe.{at_limit, with_subscription}
use upnpsdk.Gena.Kept.{IsKept}

-- A change that keeps the count right and adds no subscription.
abbrev pub Shrinks : ServiceInfo → ServiceInfo → Type 0
Shrinks s s' =
    (IsCounted s → IsCounted s') × (length s'.subscription_list ≤ length s.subscription_list)

pub Shrinks-IsKept :
    (limit : ℤ) (s s' : ServiceInfo) → Shrinks s s' → IsKept limit s → IsKept limit s'
Shrinks-IsKept limit s s' (c, l) (k, inl e) = (c k, inl e)
Shrinks-IsKept limit s s' (c, l) (k, inr e) = (c k, inr (omega (arith, l, e)))

pub Shrinks-trans : (a b c : ServiceInfo) → Shrinks a b → Shrinks b c → Shrinks a c
Shrinks-trans a b c (f, l) (g, m) = (λ k. g (f k), omega (arith, l, m))

pub remove-Shrinks : (sid : List ℕ) (s : ServiceInfo) → Shrinks s (remove_subscription_sid sid s)
unfolding remove_subscription_sid
remove-Shrinks sid s =
    (remove-IsCounted sid s, omega (arith, length-unlink sid s.subscription_list))

pub get-Shrinks :
    (sid : List ℕ) (now : ℤ) (s : ServiceInfo) → Shrinks s (get_subscription_sid sid now s).1
unfolding get_subscription_sid
get-Shrinks sid now s = go (find_sid sid s.subscription_list)
  where
    go :
        (o : Option Subscription)
        → Shrinks s (
            (elim o as (λ x. Option Subscription × ServiceInfo) [
              | none ↦ (none, s)
              | some u ↦
                  if is_expired now u then (none, remove_subscription_sid sid s) else (some u, s)
            ]).1)
    go none = (λ k. k, omega arith)
    go (some u) = dec (is_expired now u)
      where
        dec :
            (b : Bool)
            → Shrinks s
                (if◌then◌else◌ {A = Option Subscription × ServiceInfo} b
                  (none, remove_subscription_sid sid s)
                  (some u, s)).1
        dec true = remove-Shrinks sid s
        dec false = (λ k. k, omega arith)

length-update_sid :
    (sid : List ℕ) (f : Subscription → Subscription) (l : List Subscription)
    → length (update_sid sid f l) ≡ length l
unfolding update_sid
length-update_sid sid f [] = refl
length-update_sid sid f (s ∷ l) = ground (arith, length-update_sid sid f l)

pub update-Shrinks :
    (sid : List ℕ) (f : Subscription → Subscription) (s : ServiceInfo)
    → Shrinks s (record s { subscription_list = update_sid sid f s.subscription_list })
update-Shrinks sid f s =
    let e = length-update_sid sid f s.subscription_list in
    (λ k. k ∙ ap pos (sym e), omega (arith, e))

pub add-IsKept :
    (info : HandleInfo) (s : ServiceInfo) (u : Subscription)
    → at_limit info s ≡ false
    → IsKept info.max_subscriptions s
    → IsKept info.max_subscriptions (with_subscription s u)
unfolding ◌+ℤ◌
add-IsKept info s u h (k, l) = (
  ap (λ x. x +ℤ pos 1) k ∙ ground arith,
  elim (Bool-cases (eqb_ℤ info.max_subscriptions (negsuc 0))) [
    | inl e ↦ inl (eqb_ℤ→eq info.max_subscriptions (negsuc 0) e)
    | inr e ↦
        let below : leb_ℤ info.max_subscriptions (pos (length s.subscription_list)) ≡ false =
          sym (rw (e, k) refl) ∙ h in
        inr (ground (arith, below))
  ],
)

length-serve_one :
    (memory : ℕ → Bool) (tpool : ℕ → ℤ) (event : NotifyThread) (now : ℤ) (i : ℕ) (c : ℤ)
    (s : Subscription) (l : List Subscription) (r : Served)
    → length r.left + r.freed ≡ length l
    → length (serve_one memory tpool event now i c s l r).left
        + (serve_one memory tpool event now i c s l r).freed
      ≡ suc (length l)
unfolding serve_one
length-serve_one memory tpool event now i c s l r h = ground (arith, h)

length-serve :
    (memory : ℕ → Bool) (tpool : ℕ → ℤ) (event : NotifyThread) (now : ℤ) (i : ℕ) (c : ℤ)
    (l : List Subscription)
    → length (serve memory tpool event now i c l).left + (serve memory tpool event now i c l).freed
      ≡ length l
unfolding serve serve_one
length-serve memory tpool event now i c [] = refl
length-serve memory tpool event now i c (s ∷ l) =
    go (is_expired now s) s.active refl refl (length-serve memory tpool event now i c l) (
      length-serve_one memory tpool event now i c s l _
        (length-serve memory tpool event now (i + 1) (tpool i) l))
  where
    go :
        (e a : Bool)
        → is_expired now s ≡ e
        → s.active ≡ a
        → length (serve memory tpool event now i c l).left
            + (serve memory tpool event now i c l).freed
          ≡ length l
        → length
              (serve_one memory tpool event now i c s l
                (serve memory tpool event now (i + 1) (tpool i) l)).left
            + (serve_one memory tpool event now i c s l
                (serve memory tpool event now (i + 1) (tpool i) l)).freed
          ≡ suc (length l)
        → length (serve memory tpool event now i c (s ∷ l)).left
            + (serve memory tpool event now i c (s ∷ l)).freed
          ≡ suc (length l)
    go true a he ha h k = rw he (omega (arith, h))
    go false true he ha h k =
        ap (λ r. length r.left + r.freed) (serve_at memory tpool event now i c s l he ha) ∙ k
    go false false he ha h k = rw (he, ha) (omega (arith, h))

-- What the loop of `genaNotifyAll` leaves of a service.
pub serve-Shrinks :
    (memory : ℕ → Bool) (tpool : ℕ → ℤ) (event : NotifyThread) (now : ℤ) (s : ServiceInfo)
    → Shrinks s (
        fewer s
          (serve memory tpool event now 0 (pos 0) s.subscription_list).left
          (serve memory tpool event now 0 (pos 0) s.subscription_list).freed)
serve-Shrinks memory tpool event now s =
    let r = serve memory tpool event now 0 (pos 0) s.subscription_list in
    let e = length-serve memory tpool event now 0 (pos 0) s.subscription_list in
    (
      λ k.
          minus s.total_subscriptions (length s.subscription_list) (length r.left) r.freed k
            (sym e),
      omega (arith, e),
    )
