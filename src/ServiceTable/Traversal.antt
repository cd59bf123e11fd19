-- ===== src/ServiceTable/Traversal.antt =====
-- The traversal of a service's subscriptions by `GetFirstSubscription` and `GetNextSubscription` of
-- src/genlib/service_table/service_table.c, as src/gena/gena_server.c makes it.
use upnpsdk.Prelude.{
  ℕ, zero, suc, ◌+◌, ◌<◌, ◌≡◌, refl, ap, ◌∙◌, Bool, true, false, not, ◌&&◌, Option, none, some,
  List, [], ◌∷◌, ◌++◌, arith, if◌then◌else◌, length, length-append, filter, take, drop, get_elem?,
  append_assoc,
}
use upnpsdk.Prelude.Int.{ℤ, pos, ◌-ℤ◌, sub_sub}
use upnpsdk.ServiceTable.{
  Subscription, ServiceInfo, is_expired, Skipped, skip, behind, get_next_subscription,
  get_first_subscription,
}

abbrev pub is_live : ℤ → Subscription → Bool
is_live now s = not (is_expired now s)

-- Active and not expired.
abbrev pub is_served : ℤ → Subscription → Bool
is_served now s = not (is_expired now s) && s.active

-- How many have expired.
unfoldable pub expired : ℤ → List Subscription → ℕ
expired now [] = 0
expired now (s ∷ l) = (if is_expired now s then 1 else 0) + expired now l

-- The two ways in which the skipping ends.
pub data Skips (now : ℤ) (l : List Subscription) (r : Skipped) : Type 0 where
  ended :
      r.stop ≡ none
      → r.kept ≡ filter (is_live now) l
      → filter (is_served now) l ≡ []
      → r.freed ≡ expired now l
      → Skips now l r
  stopped :
      (pre : List Subscription) (x : Subscription) (post : List Subscription)
      → r.stop ≡ some (length pre)
      → r.kept ≡ pre ++ (x ∷ post)
      → filter (is_live now) l ≡ pre ++ (x ∷ filter (is_live now) post)
      → filter (is_served now) l ≡ x ∷ filter (is_served now) post
      → r.freed + expired now post ≡ expired now l
      → length post < length l
      → Skips now l r

skip-Skips : (now : ℤ) (l : List Subscription) → Skips now l (skip now l)
unfolding skip behind expired
skip-Skips now [] = ended refl refl refl refl
skip-Skips now (s ∷ l) = go (is_expired now s) s.active (skip-Skips now l) refl refl
  where
    go :
        (e a : Bool)
        → Skips now l (skip now l)
        → is_expired now s ≡ e
        → s.active ≡ a
        → Skips now (s ∷ l) (skip now (s ∷ l))
    go true a (ended p q v f) he ha =
        ended (ground arith) (ground arith) (ground arith) (ground arith)
    go true a (stopped pre x post p q w v f h) he ha =
        stopped pre x post (ground arith) (ground arith) (ground arith) (ground arith)
          (ground arith) (omega arith)
    go false true k he ha =
        stopped [] s l (ground arith) (ground arith) (ground arith) (ground arith) (ground arith)
          (omega arith)
    go false false (ended p q v f) he ha =
        ended (ground arith) (ground arith) (ground arith) (ground arith)
    go false false (stopped pre x post p q w v f h) he ha =
        stopped (s ∷ pre) x post (ground arith) (ground arith) (ground arith) (ground arith)
          (ground arith) (omega arith)

drop-seam :
    (pre : List Subscription) (x : Subscription) (post : List Subscription)
    → drop (suc (length pre)) (pre ++ (x ∷ post)) ≡ post
drop-seam [] x post = refl
drop-seam (s ∷ pre) x post = drop-seam pre x post

take-seam :
    (pre : List Subscription) (x : Subscription) (post : List Subscription)
    → take (suc (length pre)) (pre ++ (x ∷ post)) ≡ pre ++ (x ∷ [])
take-seam [] x post = refl
take-seam (s ∷ pre) x post = ap (◌∷◌ s) (take-seam pre x post)

pub get_elem?-seam :
    (pre : List Subscription) (x : Subscription) (post : List Subscription)
    → get_elem? (pre ++ (x ∷ post)) (length pre) ≡ some x
get_elem?-seam [] x post = refl
get_elem?-seam (s ∷ pre) x post = get_elem?-seam pre x post

-- The service with another list and so many subscriptions fewer.
abbrev pub fewer : ServiceInfo → List Subscription → ℕ → ServiceInfo
fewer s l n = record s {
  subscription_list = l;
  total_subscriptions = s.total_subscriptions -ℤ pos n;
}

pub fewer-fewer :
    (s : ServiceInfo) (l l' : List Subscription) (m n : ℕ)
    → fewer (fewer s l m) l' n ≡ fewer s l' (m + n)
fewer-fewer s l l' m n =
    ap (λ t. record s { subscription_list = l'; total_subscriptions = t })
      (sub_sub s.total_subscriptions m n)

-- `GetNextSubscription` from a node that is in the list.
pub next_at :
    (now : ℤ) (s : ServiceInfo) (pre : List Subscription) (x : Subscription)
    (post : List Subscription)
    → s.subscription_list ≡ pre ++ (x ∷ post)
    → get_next_subscription now s (length pre) ≡ (
      elim (skip now post).stop [ none ↦ none | some i ↦ some (suc (length pre) + i) ],
      fewer s ((pre ++ (x ∷ [])) ++ (skip now post).kept) (skip now post).freed,
    )
unfolding get_next_subscription
next_at now s pre x post e = rw (e, drop-seam, take-seam, get_next_subscription)

consed :
    Subscription
    → Option (List Subscription × ServiceInfo)
    → Option (List Subscription × ServiceInfo)
consed x none = none
consed x (some (xs, s)) = some (x ∷ xs, s)

-- The subscriptions that the loop of `genaNotifyAll` visits, from a position on, and the service
-- behind it; `none` is fuel that ran out, or a position that is not in the list.
pub visit : ℕ → ℤ → Option ℕ → ServiceInfo → Option (List Subscription × ServiceInfo)
visit zero now finger s = none
visit (suc fuel) now none s = some ([], s)
visit (suc fuel) now (some i) s =
    let (finger, s') = get_next_subscription now s i in
    elim (get_elem? s.subscription_list i) [
      | none ↦ none
      | some x ↦ consed x (visit fuel now finger s')
    ]

pub visit_all : ℕ → ℤ → ServiceInfo → Option (List Subscription × ServiceInfo)
visit_all fuel now s = let (finger, s') = get_first_subscription now s in visit fuel now finger s'

visit_at :
    (fuel : ℕ) (now : ℤ) (s : ServiceInfo) (i : ℕ) (x : Subscription)
    → get_elem? s.subscription_list i ≡ some x
    → visit (suc fuel) now (some i) s
      ≡ consed x
          (visit fuel now (get_next_subscription now s i).0 (get_next_subscription now s i).1)
unfolding visit
visit_at fuel now s i x e = rw (visit, e) refl

visit_step :
    (fuel : ℕ) (now : ℤ) (s : ServiceInfo) (pre : List Subscription) (x : Subscription)
    (post : List Subscription)
    → s.subscription_list ≡ pre ++ (x ∷ post)
    → visit (suc fuel) now (some (length pre)) s
      ≡ consed x (
          visit fuel now
            (elim (skip now post).stop [ none ↦ none | some i ↦ some (suc (length pre) + i) ])
            (fewer s ((pre ++ (x ∷ [])) ++ (skip now post).kept) (skip now post).freed))
unfolding visit
visit_step fuel now s pre x post e =
    visit_at fuel now s (length pre) x
      (ap (λ l. get_elem? l (length pre)) e ∙ get_elem?-seam pre x post)
    ∙ ap (λ r. consed x (visit fuel now r.0 r.1)) (next_at now s pre x post e)

pub length-seams :
    (pre : List Subscription) (x : Subscription) (pre' : List Subscription)
    → length ((pre ++ (x ∷ [])) ++ pre') ≡ suc (length pre) + length pre'
length-seams pre x pre' =
    ground (arith, length-append (pre ++ (x ∷ [])) pre', length-append pre (x ∷ []))

-- One visit, and the visits from the next node on.
visit_stopped :
    (fuel : ℕ) (now : ℤ) (s : ServiceInfo) (pre : List Subscription) (x : Subscription)
    (post pre' : List Subscription) (x' : Subscription) (post' : List Subscription)
    → s.subscription_list ≡ pre ++ (x ∷ post)
    → (skip now post).stop ≡ some (length pre')
    → (skip now post).kept ≡ pre' ++ (x' ∷ post')
    → filter (is_live now) post ≡ pre' ++ (x' ∷ filter (is_live now) post')
    → filter (is_served now) post ≡ x' ∷ filter (is_served now) post'
    → (skip now post).freed + expired now post' ≡ expired now post
    → visit fuel now
        (some (length ((pre ++ (x ∷ [])) ++ pre')))
        (fewer s (((pre ++ (x ∷ [])) ++ pre') ++ (x' ∷ post')) (skip now post).freed)
      ≡ some (
        x' ∷ filter (is_served now) post',
        fewer
            (fewer s (((pre ++ (x ∷ [])) ++ pre') ++ (x' ∷ post')) (skip now post).freed)
            (((pre ++ (x ∷ [])) ++ pre') ++ (x' ∷ filter (is_live now) post'))
            (expired now post'),
      )
    → visit (suc fuel) now (some (length pre)) s
      ≡ some (
        x ∷ filter (is_served now) post,
        fewer s (pre ++ (x ∷ filter (is_live now) post)) (expired now post),
      )
unfolding consed
visit_stopped fuel now s pre x post pre' x' post' e p q w v f ih =
    visit_step fuel now s pre x post e
    ∙ rw
        (
          p,
          q,
          ← append_assoc (pre ++ (x ∷ [])) pre' (x' ∷ post'),
          ← length-seams pre x pre',
          ih,
          fewer-fewer,
          f,
          v,
          w,
          append_assoc (pre ++ (x ∷ [])) pre' (x' ∷ filter (is_live now) post'),
          append_assoc pre (x ∷ []) (pre' ++ (x' ∷ filter (is_live now) post')),
        )
        refl

visit_from :
    (fuel : ℕ) (now : ℤ) (s : ServiceInfo) (pre : List Subscription) (x : Subscription)
    (post : List Subscription)
    → s.subscription_list ≡ pre ++ (x ∷ post)
    → length post + 1 < fuel
    → visit fuel now (some (length pre)) s
      ≡ some (
        x ∷ filter (is_served now) post,
        fewer s (pre ++ (x ∷ filter (is_live now) post)) (expired now post),
      )
unfolding visit consed
visit_from zero now s pre x post e h = absurd (omega arith)
visit_from (suc zero) now s pre x post e h = absurd (omega arith)
visit_from (suc (suc fuel)) now s pre x post e h = elim (skip-Skips now post) [
  | ended p q v f ↦ visit_step (suc fuel) now s pre x post e ∙ (rw (p, q, v, f, append_assoc) refl)
  | stopped pre' x' post' p q w v f b ↦
      visit_stopped (suc fuel) now s pre x post pre' x' post' e p q w v f (
        visit_from (suc fuel) now
          (fewer s (((pre ++ (x ∷ [])) ++ pre') ++ (x' ∷ post')) (skip now post).freed)
          ((pre ++ (x ∷ [])) ++ pre') x' post' refl (omega arith))
]

-- The traversal as src/gena/gena_server.c makes it, with more fuel than there are subscriptions,
-- ends: it visits the subscriptions that are active and have not expired, in their order and each
-- once, and leaves the service without the expired ones, with the count lowered by their number.
pub visit_all_lem :
    (fuel : ℕ) (now : ℤ) (s : ServiceInfo)
    → length s.subscription_list < fuel
    → visit_all fuel now s
      ≡ some (
        filter (is_served now) s.subscription_list,
        fewer s (filter (is_live now) s.subscription_list) (expired now s.subscription_list),
      )
unfolding visit_all visit get_first_subscription
visit_all_lem zero now s h = absurd (omega arith)
visit_all_lem (suc fuel) now s h = elim (skip-Skips now s.subscription_list) [
  | ended p q v f ↦ rw (p, q, v, f) refl
  | stopped pre x post p q w v f b ↦
      rw
        (
          p,
          q,
          v,
          w,
          visit_from (suc fuel) now
              (fewer s (pre ++ (x ∷ post)) (skip now s.subscription_list).freed) pre x post refl
              (omega arith),
          fewer-fewer,
          f,
        )
        refl
]
