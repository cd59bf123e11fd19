-- ===== src/Gena/Notify/Outcome.antt =====
-- What `genaNotifyAll` of src/gena/gena_server.c hands to the thread pool and returns, when every round
-- succeeds and when the memory runs short in one.
use upnpsdk.Prelude.{
  ℕ, zero, suc, ◌+◌, ◌<◌, ◌≡◌, refl, ap, ◌∙◌, Bool, true, false, some, List, [], ◌∷◌, map, arith,
  if◌then◌else◌, length, filter, take,
}
use upnpsdk.Prelude.Int.{ℤ, pos}
use upnpsdk.ServiceTable.{Subscription, ServiceInfo, is_expired}
use upnpsdk.ServiceTable.Traversal.{fewer, is_live, is_served, expired}
use upnpsdk.Gena.{NotifyThread}
use upnpsdk.Gena.Notify.{issue, job_of, Notified, notify_service}
use upnpsdk.Gena.Notify.Serve.{Served, serve, serve_one}
use upnpsdk.Gena.Notify.Rounds.{finish, notify_service_lem}

-- An active subscription with the key of the next event, any other as it is.
abbrev pub issued : Subscription → Subscription
issued s = if s.active then issue s else s

module _ (memory : ℕ → Bool) (tpool : ℕ → ℤ) (event : NotifyThread) (now : ℤ) where
  abbrev pub Accepts : ℕ → Type 0
  Accepts j = (memory j ≡ true) × (tpool j ≡ pos 0)

  -- What the rounds make of a list when all of them succeed.
  abbrev all_served : ℕ → List Subscription → Served
  all_served i l = record {
    left = map issued (filter (is_live now) l);
    handed = map (job_of event) (filter (is_served now) l);
    freed = expired now l;
    count = i + length (filter (is_served now) l);
    code = pos 0;
  }

  serve-accepted :
      (l : List Subscription) (i : ℕ)
      → ((j : ℕ) → j < i + length (filter (is_served now) l) → Accepts j)
      → serve memory tpool event now i (pos 0) l ≡ all_served i l
  unfolding serve serve_one expired
  serve-accepted [] i h =
      ap (λ n. record { left = []; handed = []; freed = 0; count = n; code = pos 0 }) (omega arith)
  serve-accepted (s ∷ l) i h = go (is_expired now s) s.active refl refl (serve-accepted l)
    where
      go :
          (e a : Bool)
          → is_expired now s ≡ e
          → s.active ≡ a
          → ((k : ℕ)
              → ((j : ℕ) → j < k + length (filter (is_served now) l) → Accepts j)
              → serve memory tpool event now k (pos 0) l ≡ all_served k l)
          → serve memory tpool event now i (pos 0) (s ∷ l) ≡ all_served i (s ∷ l)
      go true a he ha ih =
          let eq = ih i (λ j b. h j (rw he b)) in
          rw (he, eq) (ap (λ n. record (all_served i l) { freed = n }) (omega arith))
      go false false he ha ih =
          let eq = ih i (λ j b. h j (rw (he, ha) b)) in rw (he, ha, eq) (grind arith)
      go false true he ha ih =
          let below = length (filter (is_served now) l) in
          let h' : (j : ℕ) → j < i + suc below → Accepts j = λ j b. h j (rw (he, ha) b) in
          let ok : Accepts i = h' i (omega arith) in
          let eq = ih (i + 1) (λ j b. h' j (omega (arith, b))) in
          rw (he, ha, ok.0, ok.1, eq) (grind arith)

  -- With a round for each subscription that is active and has not expired, in which `malloc` and the
  -- thread pool succeed, `genaNotifyAll` hands over one job for each of them, in their order and with
  -- its key, and returns 0; their keys go up, the expired ones are gone and taken off the count.
  pub notify_service-accepted :
      (fuel : ℕ) (s : ServiceInfo)
      → length s.subscription_list < fuel
      → ((j : ℕ) → j < length (filter (is_served now) s.subscription_list) → Accepts j)
      → notify_service memory tpool event now fuel s
        ≡ some (record {
          service =
              fewer s
                (map issued (filter (is_live now) s.subscription_list))
                (expired now s.subscription_list);
          jobs = map (job_of event) (filter (is_served now) s.subscription_list);
          reference_count = length (filter (is_served now) s.subscription_list);
          return_code = pos 0;
        })
  notify_service-accepted fuel s hf h =
      notify_service_lem memory tpool event now fuel s hf
      ∙ ap (λ r. some (finish s [] [] r))
          (serve-accepted s.subscription_list 0 (λ j b. h j (omega (arith, b))))
      ∙ ap
          (λ n.
            some
              (record (finish s [] [] (all_served 0 s.subscription_list)) { reference_count = n }))
          (omega arith)

  -- The rounds up to one that finds no memory.
  serve-short :
      (l : List Subscription) (i k : ℕ)
      → k < length (filter (is_served now) l)
      → ((j : ℕ) → j < i + k → Accepts j)
      → memory (i + k) ≡ false
      → ((serve memory tpool event now i (pos 0) l).code ≡ pos 0)
        × ((serve memory tpool event now i (pos 0) l).handed
            ≡ map (job_of event) (take k (filter (is_served now) l)))
  unfolding serve serve_one
  serve-short [] i k b h m = absurd (omega arith)
  serve-short (s ∷ l) i k b h m = go (is_expired now s) s.active k refl refl b h m (serve-short l)
    where
      go :
          (e a : Bool) (k : ℕ)
          → is_expired now s ≡ e
          → s.active ≡ a
          → k < length (filter (is_served now) (s ∷ l))
          → ((j : ℕ) → j < i + k → Accepts j)
          → memory (i + k) ≡ false
          → ((i' k' : ℕ)
              → k' < length (filter (is_served now) l)
              → ((j : ℕ) → j < i' + k' → Accepts j)
              → memory (i' + k') ≡ false
              → ((serve memory tpool event now i' (pos 0) l).code ≡ pos 0)
                × ((serve memory tpool event now i' (pos 0) l).handed
                    ≡ map (job_of event) (take k' (filter (is_served now) l))))
          → ((serve memory tpool event now i (pos 0) (s ∷ l)).code ≡ pos 0)
            × ((serve memory tpool event now i (pos 0) (s ∷ l)).handed
                ≡ map (job_of event) (take k (filter (is_served now) (s ∷ l))))
      go true a k he ha b h m ih =
          let e : filter (is_served now) (s ∷ l) ≡ filter (is_served now) l = rw he refl in
          rw he (ih i k (omega (arith, ap length e, b)) h m)
      go false false k he ha b h m ih =
          let e : filter (is_served now) (s ∷ l) ≡ filter (is_served now) l = rw (he, ha) refl in
          rw (he, ha) (ih i k (omega (arith, ap length e, b)) h m)
      go false true zero he ha b h m ih =
          let m' : memory i ≡ false = ap memory (omega arith) ∙ m in rw (he, ha, m') (refl, refl)
      go false true (suc k) he ha b h m ih =
          let e : filter (is_served now) (s ∷ l) ≡ s ∷ filter (is_served now) l =
            rw (he, ha) refl in
          let ok : Accepts i = h i (omega arith) in
          let (code, handed) =
            ih (i + 1) k (omega (arith, ap length e, b)) (λ j c. h j (omega (arith, c)))
              (ap memory (omega arith) ∙ m) in
          rw (he, ha, ok.0, ok.1) (code, ap (◌∷◌ (job_of event s)) handed)

  -- When the memory runs short in a round, and the rounds before it succeed, `genaNotifyAll` still
  -- returns 0, and the subscriptions from that one on get no job, though the event is one for them.
  pub notify_service-short :
      (fuel : ℕ) (s : ServiceInfo) (k : ℕ)
      → length s.subscription_list < fuel
      → k < length (filter (is_served now) s.subscription_list)
      → ((j : ℕ) → j < k → Accepts j)
      → memory k ≡ false
      → (st : Notified) × (notify_service memory tpool event now fuel s ≡ some st)
        × (st.return_code ≡ pos 0)
        × (st.jobs ≡ map (job_of event) (take k (filter (is_served now) s.subscription_list)))
  notify_service-short fuel s k hf b h m =
      let (code, handed) =
        serve-short s.subscription_list 0 k b (λ j c. h j (omega (arith, c)))
          (ap memory (omega arith) ∙ m) in
      (
        finish s [] [] (serve memory tpool event now 0 (pos 0) s.subscription_list),
        notify_service_lem memory tpool event now fuel s hf,
        code,
        handed,
      )
