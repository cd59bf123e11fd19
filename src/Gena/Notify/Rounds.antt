-- ===== src/Gena/Notify/Rounds.antt =====
-- The loop of `genaNotifyAll` of src/gena/gena_server.c against a recursion on the subscriptions,
-- without positions.
use upnpsdk.Prelude.{
  ℕ, zero, suc, ◌+◌, ◌<◌, ◌≡◌, refl, sym, ap, ◌∙◌, Bool, true, false, not, none, some, List, [],
  ◌∷◌, ◌++◌, arith, if◌then◌else◌, length, length-append, set_elem, append_assoc, append-nil,
}
use upnpsdk.Prelude.Int.{ℤ, pos, sub_zero, eqb_ℤ}
use upnpsdk.ServiceTable.{Subscription, ServiceInfo, is_expired, skip, get_first_subscription}
use upnpsdk.ServiceTable.Traversal.{fewer, next_at, get_elem?-seam, fewer-fewer}
use upnpsdk.Gena.{NotifyThread}
use upnpsdk.Gena.Notify.{issue, job_of, pool_code, Notified, notify_loop, notify_service}
use upnpsdk.Gena.Notify.Serve.{Served, over, serve, serve_one, ended, stopped, skip-Finds}

set_elem-seam :
    (pre : List Subscription) (x y : Subscription) (post : List Subscription)
    → set_elem (length pre) y (pre ++ (x ∷ post)) ≡ pre ++ (y ∷ post)
set_elem-seam [] x y post = refl
set_elem-seam (s ∷ pre) x y post = ap (◌∷◌ s) (set_elem-seam pre x y post)

-- The state of the loop, the service's list apart.
abbrev at : ServiceInfo → List Subscription → List NotifyThread → ℕ → ℤ → Notified
at s l jobs i code = record {
  service = record s { subscription_list = l };
  jobs = jobs;
  reference_count = i;
  return_code = code;
}

abbrev pub finish : ServiceInfo → List Subscription → List NotifyThread → Served → Notified
finish s pre jobs r = record {
  service = fewer s (pre ++ r.left) r.freed;
  jobs = jobs ++ r.handed;
  reference_count = r.count;
  return_code = r.code;
}

module _ (memory : ℕ → Bool) (tpool : ℕ → ℤ) (event : NotifyThread) (now : ℤ) where
  abbrev served : ℕ → ℤ → List Subscription → Served
  served = serve memory tpool event now

  abbrev served_one : ℕ → ℤ → Subscription → List Subscription → Served → Served
  served_one = serve_one memory tpool event now

  loop_at :
      (fuel : ℕ) (s : ServiceInfo) (pre : List Subscription) (x : Subscription)
      (post : List Subscription) (jobs : List NotifyThread) (i : ℕ) (code : ℤ)
      → notify_loop memory tpool event now
          (suc fuel)
          (some (length pre))
          (at s (pre ++ (x ∷ post)) jobs i code)
        ≡ (if not (memory i)
            then some (at s (pre ++ (x ∷ post)) jobs i code)
            else if not (eqb_ℤ (tpool i) (pos 0))
            then some (at s (pre ++ (issue x ∷ post)) jobs (i + 1) (pool_code (tpool i)))
            else notify_loop memory tpool event now fuel
                (elim (skip now post).stop [ none ↦ none | some k ↦ some (suc (length pre) + k) ])
                (at
                  (fewer s [] (skip now post).freed)
                  ((pre ++ (issue x ∷ [])) ++ (skip now post).kept)
                  (jobs ++ (job_of event x ∷ []))
                  (i + 1)
                  (tpool i)))
  unfolding notify_loop
  loop_at fuel s pre x post jobs i code =
      rw
        (
          notify_loop,
          get_elem?-seam pre x post,
          set_elem-seam pre x (issue x) post,
          next_at now (record s { subscription_list = pre ++ (issue x ∷ post) }) pre (issue x) post
              refl,
        )
        refl

  -- The round of a subscription that is served, with the rest of the list as `serve` has it.
  pub serve_at :
      (i : ℕ) (c : ℤ) (x : Subscription) (l : List Subscription)
      → is_expired now x ≡ false
      → x.active ≡ true
      → served i c (x ∷ l) ≡ served_one i c x l (served (i + 1) (tpool i) l)
  unfolding serve
  serve_at i c x l he ha = rw (he, ha) refl

  finish_all :
      (s : ServiceInfo) (l : List Subscription) (jobs : List NotifyThread) (i : ℕ) (code : ℤ)
      → at s l jobs i code ≡ record {
        service = fewer s l 0;
        jobs = jobs ++ [];
        reference_count = i;
        return_code = code;
      }
  finish_all s l jobs i code = rw (sub_zero s.total_subscriptions, append-nil jobs) refl

  -- What is behind a round that hands its job over.
  Continues :
      ℕ → ServiceInfo → List Subscription → List Subscription → List NotifyThread → ℕ → ℤ → Type 0
  Continues fuel s pre post jobs i code =
      notify_loop memory tpool event now (suc fuel)
        (elim (skip now post).stop [ none ↦ none | some k ↦ some (length pre + k) ])
        (at (fewer s [] (skip now post).freed) (pre ++ (skip now post).kept) jobs i code)
      ≡ some (finish s pre jobs (served i code post))

  continue_end :
      (fuel : ℕ) (s : ServiceInfo) (pre post : List Subscription) (jobs : List NotifyThread) (i : ℕ)
      (code : ℤ)
      → (skip now post).stop ≡ none
      → served i code post ≡ record {
        left = (skip now post).kept;
        handed = [];
        freed = (skip now post).freed;
        count = i;
        code = code;
      }
      → Continues fuel s pre post jobs i code
  unfolding Continues notify_loop
  continue_end fuel s pre post jobs i code p q = rw (p, q, append-nil jobs) refl

  continue_next :
      (fuel : ℕ) (s : ServiceInfo) (pre post : List Subscription) (jobs : List NotifyThread) (i : ℕ)
      (code : ℤ) (pre' : List Subscription) (x' : Subscription) (post' : List Subscription)
      → (skip now post).stop ≡ some (length pre')
      → (skip now post).kept ≡ pre' ++ (x' ∷ post')
      → served i code post ≡ over pre' (skip now post).freed (served i code (x' ∷ post'))
      → notify_loop memory tpool event now
          (suc fuel)
          (some (length (pre ++ pre')))
          (at (fewer s [] (skip now post).freed) ((pre ++ pre') ++ (x' ∷ post')) jobs i code)
        ≡ some (
            finish
              (fewer s [] (skip now post).freed)
              (pre ++ pre')
              jobs
              (served i code (x' ∷ post')))
      → Continues fuel s pre post jobs i code
  unfolding Continues
  continue_next fuel s pre post jobs i code pre' x' post' p q w ih =
      rw
        (
          p,
          q,
          w,
          ← length-append pre pre',
          ← append_assoc pre pre' (x' ∷ post'),
          ih,
          fewer-fewer,
          append_assoc pre pre' (served i code (x' ∷ post')).left,
        )
        refl

  round_lem :
      (fuel : ℕ) (s : ServiceInfo) (pre : List Subscription) (x : Subscription)
      (post : List Subscription) (jobs : List NotifyThread) (i : ℕ) (code : ℤ)
      → is_expired now x ≡ false
      → x.active ≡ true
      → Continues fuel s
          (pre ++ (issue x ∷ []))
          post
          (jobs ++ (job_of event x ∷ []))
          (i + 1)
          (tpool i)
      → notify_loop memory tpool event now
          (suc (suc fuel))
          (some (length pre))
          (at s (pre ++ (x ∷ post)) jobs i code)
        ≡ some (finish s pre jobs (served i code (x ∷ post)))
  unfolding serve_one Continues
  round_lem fuel s pre x post jobs i code he ha k =
      loop_at (suc fuel) s pre x post jobs i code
      ∙ go (memory i) (eqb_ℤ (tpool i) (pos 0)) refl refl
      ∙ ap (λ r. some (finish s pre jobs r)) (sym (serve_at i code x post he ha))
    where
      go :
          (m t : Bool)
          → memory i ≡ m
          → eqb_ℤ (tpool i) (pos 0) ≡ t
          → (if not (memory i)
              then some (at s (pre ++ (x ∷ post)) jobs i code)
              else if not (eqb_ℤ (tpool i) (pos 0))
              then some (at s (pre ++ (issue x ∷ post)) jobs (i + 1) (pool_code (tpool i)))
              else notify_loop memory tpool event now
                  (suc fuel)
                  (elim (skip now post).stop [ none ↦ none | some k ↦ some (suc (length pre) + k) ])
                  (at
                    (fewer s [] (skip now post).freed)
                    ((pre ++ (issue x ∷ [])) ++ (skip now post).kept)
                    (jobs ++ (job_of event x ∷ []))
                    (i + 1)
                    (tpool i)))
            ≡ some (finish s pre jobs (served_one i code x post (served (i + 1) (tpool i) post)))
      go false t hm ht = rw hm (ap some (finish_all s (pre ++ (x ∷ post)) jobs i code))
      go true false hm ht =
          rw (hm, ht)
            (ap some (finish_all s (pre ++ (issue x ∷ post)) jobs (i + 1) (pool_code (tpool i))))
      go true true hm ht =
          rw (hm, ht)
            (ap
                (λ n.
                  notify_loop memory tpool event now (suc fuel)
                    (elim (skip now post).stop [ none ↦ none | some k ↦ some (n + k) ])
                    (at (fewer s [] (skip now post).freed)
                      ((pre ++ (issue x ∷ [])) ++ (skip now post).kept)
                      (jobs ++ (job_of event x ∷ [])) (i + 1) (tpool i)))
                (grind (arith, length-append pre (issue x ∷ [])))
              ∙ k
              ∙ rw
                  (
                    append_assoc pre (issue x ∷ []) (served (i + 1) (tpool i) post).left,
                    append_assoc jobs (job_of event x ∷ []) (served (i + 1) (tpool i) post).handed,
                  )
                  refl)

  loop_from :
      (fuel : ℕ) (s : ServiceInfo) (pre : List Subscription) (x : Subscription)
      (post : List Subscription) (jobs : List NotifyThread) (i : ℕ) (code : ℤ)
      → is_expired now x ≡ false
      → x.active ≡ true
      → length post + 1 < fuel
      → notify_loop memory tpool event now fuel
          (some (length pre))
          (at s (pre ++ (x ∷ post)) jobs i code)
        ≡ some (finish s pre jobs (served i code (x ∷ post)))
  loop_from zero s pre x post jobs i code he ha h = absurd (omega arith)
  loop_from (suc zero) s pre x post jobs i code he ha h = absurd (omega arith)
  loop_from (suc (suc fuel)) s pre x post jobs i code he ha h =
      let jobs' = jobs ++ (job_of event x ∷ []) in
      let pre₁ = pre ++ (issue x ∷ []) in
      round_lem fuel s pre x post jobs i code he ha (elim (skip-Finds memory tpool event now post) [
        | ended p q ↦ continue_end fuel s pre₁ post jobs' (i + 1) (tpool i) p (q (i + 1) (tpool i))
        | stopped pre' x' post' p q hx hl w b ↦
            continue_next fuel s pre₁ post jobs' (i + 1) (tpool i) pre' x' post' p q
              (w (i + 1) (tpool i))
              (loop_from (suc fuel) (fewer s [] (skip now post).freed) (pre₁ ++ pre') x' post' jobs'
                (i + 1) (tpool i) hx hl (omega arith))
      ])

  -- The loop of `genaNotifyAll`, with more fuel than there are subscriptions, ends, and does what the
  -- recursion on the list does, whatever `malloc` and the thread pool return: each subscription that
  -- is active and has not expired gets a job with its key, in order, until a round fails; the expired
  -- ones before that point are freed and taken off the count, and what is behind it is untouched.
  pub notify_service_lem :
      (fuel : ℕ) (s : ServiceInfo)
      → length s.subscription_list < fuel
      → notify_service memory tpool event now fuel s
        ≡ some (finish s [] [] (served 0 (pos 0) s.subscription_list))
  unfolding notify_service notify_loop get_first_subscription
  notify_service_lem zero s h = absurd (omega arith)
  notify_service_lem (suc fuel) s h = elim (skip-Finds memory tpool event now s.subscription_list) [
    | ended p q ↦ rw (p, q 0 (pos 0)) refl
    | stopped pre x post p q hx hl w b ↦
        rw
          (
            p,
            q,
            w 0 (pos 0),
            loop_from (suc fuel) (fewer s [] (skip now s.subscription_list).freed) pre x post [] 0
                (pos 0) hx hl (omega arith),
            fewer-fewer,
          )
          refl
  ]
