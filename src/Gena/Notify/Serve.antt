-- ===== src/Gena/Notify/Serve.antt =====
-- The loop of `genaNotifyAll` of src/gena/gena_server.c told without positions, as a recursion on the
-- subscriptions, and what the search for the next subscription does to it.
use upnpsdk.Prelude.{
  ℕ, ◌+◌, ◌<◌, ◌≡◌, refl, sym, ap, ◌∙◌, Bool, true, false, not, none, some, List, [], ◌∷◌, ◌++◌,
  arith, if◌then◌else◌, length,
}
use upnpsdk.Prelude.Int.{ℤ, pos, eqb_ℤ}
use upnpsdk.ServiceTable.{Subscription, is_expired, skip, behind, Skipped}
use upnpsdk.Gena.{NotifyThread}
use upnpsdk.Gena.Notify.{issue, job_of, pool_code}

-- What becomes of a list: the subscriptions left, the jobs handed over, how many were freed as
-- expired, the rounds begun, and the result.
pub record Served : Type 0 where
  pub left : List Subscription
  pub handed : List NotifyThread
  pub freed : ℕ
  pub count : ℕ
  pub code : ℤ

abbrev pub over : List Subscription → ℕ → Served → Served
over pre n r = record r { left = pre ++ r.left; freed = n + r.freed }

over_nil : (r : Served) → r ≡ over [] 0 r
over_nil r = ap (λ n. record r { freed = n }) (omega arith)

module _ (memory : ℕ → Bool) (tpool : ℕ → ℤ) (event : NotifyThread) (now : ℤ) where
  -- A subscription in turn: the round ends the loop, or hands the job over.
  unfoldable pub serve_one : ℕ → ℤ → Subscription → List Subscription → Served → Served
  serve_one i code s l rest =
      if not (memory i)
      then record { left = s ∷ l; handed = []; freed = 0; count = i; code = code }
      else if not (eqb_ℤ (tpool i) (pos 0))
      then record {
        left = issue s ∷ l;
        handed = [];
        freed = 0;
        count = i + 1;
        code = pool_code (tpool i);
      }
      else record rest { left = issue s ∷ rest.left; handed = job_of event s ∷ rest.handed }

  -- From round `i` on, with `code` for the result so far.
  unfoldable pub serve : ℕ → ℤ → List Subscription → Served
  unfolding serve_one
  serve i code [] = record { left = []; handed = []; freed = 0; count = i; code = code }
  serve i code (s ∷ l) =
      let next = serve i code l in
      let served = serve_one i code s l (serve (i + 1) (tpool i) l) in
      if is_expired now s
      then record next { freed = next.freed + 1 }
      else if s.active
      then served
      else record next { left = s ∷ next.left }

  -- The next subscription to serve, as the skipping finds it.
  pub data Finds (l : List Subscription) (r : Skipped) : Type 0 where
    ended :
        r.stop ≡ none
        → ((i : ℕ) (c : ℤ)
            → serve i c l
              ≡ record { left = r.kept; handed = []; freed = r.freed; count = i; code = c })
        → Finds l r
    stopped :
        (pre : List Subscription) (x : Subscription) (post : List Subscription)
        → r.stop ≡ some (length pre)
        → r.kept ≡ pre ++ (x ∷ post)
        → is_expired now x ≡ false
        → x.active ≡ true
        → ((i : ℕ) (c : ℤ) → serve i c l ≡ over pre r.freed (serve i c (x ∷ post)))
        → length post < length l
        → Finds l r

  none_freed :
      (s : Subscription) (l : List Subscription)
      → is_expired now s ≡ false
      → s.active ≡ true
      → (skip now (s ∷ l)).freed ≡ 0
  unfolding skip
  none_freed s l he ha = rw (he, ha) refl

  pub skip-Finds : (l : List Subscription) → Finds l (skip now l)
  unfolding skip behind serve
  skip-Finds [] = ended refl (λ i c. refl)
  skip-Finds (s ∷ l) = go (is_expired now s) s.active (skip-Finds l) refl refl
    where
      go :
          (e a : Bool)
          → Finds l (skip now l)
          → is_expired now s ≡ e
          → s.active ≡ a
          → Finds (s ∷ l) (skip now (s ∷ l))
      go true a (ended p q) he ha = ended (rw he p) (λ i c. rw (he, q i c) refl)
      go true a (stopped pre x post p q hx hl w b) he ha =
          stopped pre x post (rw he p) (rw he q) hx hl (λ i c. rw (he, w i c) (grind arith))
            (omega arith)
      go false true k he ha =
          stopped [] s l (rw (he, ha) refl) (rw (he, ha) refl) he ha
            (λ i c.
              over_nil (serve i c (s ∷ l))
              ∙ ap (λ n. over [] n (serve i c (s ∷ l))) (sym (none_freed s l he ha)))
            (omega arith)
      go false false (ended p q) he ha =
          ended (rw (he, ha, p) refl) (λ i c. rw (he, ha, q i c) refl)
      go false false (stopped pre x post p q hx hl w b) he ha =
          stopped (s ∷ pre) x post (rw (he, ha, p) refl) (rw (he, ha, q) refl) hx hl
            (λ i c. rw (he, ha, w i c) refl) (omega arith)
