-- ===== src/Gena/Initial.antt =====
-- The first event of a subscription in src/gena/gena_server.c, which `genaInitNotify` hands over.
use upnpsdk.Prelude.{
  ℕ, ◌≡◌, refl, ap, ◌∙◌, inl, inr, Bool, Bool-cases, true, false, not, Option, none, some, List,
  ◌∷◌, if◌then◌else◌, str_eq_refl,
}
use upnpsdk.Prelude.Int.{ℤ, pos, ◌+ℤ◌, eqb_ℤ}
use upnpsdk.Codes.{Status, rc}
use upnpsdk.ServiceTable.{Subscription, ServiceInfo, is_expired, find_sid, get_subscription_sid}
use upnpsdk.Gena.Notify.{pool_code}
use upnpsdk.Gena.Subscribe.{with_subscription}
use upnpsdk.Gena.{NotifyThread, update_sid}
use upnpsdk.Gena.Calls.{Outcomes, init_subscription, init_found, initial_job, activate, take_key}
use upnpsdk.Gena.Event.{headers_text}
use upnpsdk.Gena.Directory.{view-update}

-- The subscription that `GetSubscriptionSID` finds: it stands in the list and has not expired, and the
-- list is as before.
found_lem :
    (sid : List ℕ) (now : ℤ) (s : ServiceInfo) (u : Subscription)
    → find_sid sid s.subscription_list ≡ some u
    → is_expired now u ≡ false
    → get_subscription_sid sid now s ≡ (some u, s)
unfolding get_subscription_sid
found_lem sid now s u e x = rw (get_subscription_sid, e, x) refl

find_first : (u : Subscription) (l : List Subscription) → find_sid u.sid (u ∷ l) ≡ some u
unfolding find_sid
find_first u l = rw (str_eq_refl u.sid) refl

update_first :
    (u : Subscription) (f : Subscription → Subscription) (l : List Subscription)
    → update_sid u.sid f (u ∷ l) ≡ f u ∷ l
unfolding update_sid
update_first u f l = rw (str_eq_refl u.sid) refl

-- The subscription changed in its place.
update_found :
    (sid : List ℕ) (f : Subscription → Subscription) (l : List Subscription) (u : Subscription)
    → ((s : Subscription) → (f s).sid ≡ s.sid)
    → find_sid sid l ≡ some u
    → find_sid sid (update_sid sid f l) ≡ some (f u)
update_found sid f l u k e = view-update sid f l sid k ∙ rw (str_eq_refl sid, e) refl

abbrev InitResult : Type 0
InitResult = ℤ × ServiceInfo × Option NotifyThread

-- The subscription is active afterwards, on every path.
IsActivated : List ℕ → Subscription → InitResult → Type 0
IsActivated sid u r =
    (v : Subscription) × (find_sid sid r.1.subscription_list ≡ some v)
    × (v.active ≡ true)
    × (v.expire_time ≡ u.expire_time)

init-IsActivated :
    (o : Outcomes) (text : ℤ × List ℕ) (job : List ℕ → Subscription → NotifyThread) (sid : List ℕ)
    (u : Subscription) (s : ServiceInfo)
    → find_sid sid s.subscription_list ≡ some u
    → IsActivated sid u (init_subscription o text job sid u s)
unfolding init_subscription IsActivated
init-IsActivated o (code, property_set) job sid u s e =
    go (eqb_ℤ code (pos 0)) o.headers o.thread (eqb_ℤ o.pool (pos 0))
  where
    active : ServiceInfo
    active = record s { subscription_list = update_sid sid activate s.subscription_list }

    taken : ServiceInfo
    taken = record active { subscription_list = update_sid sid take_key active.subscription_list }

    p : find_sid sid active.subscription_list ≡ some (activate u)
    p = update_found sid activate s.subscription_list u (λ s. refl) e

    q : find_sid sid taken.subscription_list ≡ some (take_key (activate u))
    q = update_found sid take_key active.subscription_list (activate u) (λ s. refl) p

    go :
        (a b c d : Bool)
        → IsActivated sid u (
            if◌then◌else◌ {A = InitResult}
              (not a)
              (code, active, none)
              (if not b
                then (rc Status.outof_memory, active, none)
                else if not c
                then (rc Status.outof_memory, active, none)
                else if not d
                then (pool_code o.pool, taken, none)
                else (pos 0, taken, some (job property_set u))))
    go false b c d = (activate u, p, refl, refl)
    go true false c d = (activate u, p, refl, refl)
    go true true false d = (activate u, p, refl, refl)
    go true true true false = (take_key (activate u), q, refl, refl)
    go true true true true = (take_key (activate u), q, refl, refl)

-- A search that finds an active subscription or none ends the call.
init_refused :
    (o : Outcomes) (text : ℤ × List ℕ) (job : List ℕ → Subscription → NotifyThread) (sid : List ℕ)
    (r : Option Subscription × ServiceInfo)
    → ((w : Subscription) → r.0 ≡ some w → w.active ≡ true)
    → init_found o text job sid r ≡ (rc Status.invalid_sid, r.1, none)
unfolding init_found
init_refused o text job sid (none, s) h = refl
init_refused o text job sid (some w, s) h = rw (h w refl) refl

-- What the search finds is what stands in the list, or nothing when that has expired.
found_only :
    (sid : List ℕ) (now : ℤ) (s : ServiceInfo) (v w : Subscription)
    → find_sid sid s.subscription_list ≡ some v
    → (get_subscription_sid sid now s).0 ≡ some w
    → w ≡ v
unfolding get_subscription_sid
found_only sid now s v w e f = elim (Bool-cases (is_expired now v)) [
  | inl x ↦
      let r : (get_subscription_sid sid now s).0 ≡ none = rw (get_subscription_sid, e, x) refl in
      absurd cc
  | inr x ↦ let r = ap (λ q. q.0) (found_lem sid now s v e x) in cc
]

-- `genaInitNotify` takes a subscription once: after a call that finds it, inactive and not expired,
-- and whether or not that call fails for the text, the memory or the thread pool, the next call for it,
-- at whatever time, returns UPNP_E_INVALID_SID, hands over nothing, and changes nothing but what the
-- search for an expired subscription removes.
pub init-once :
    (o o' : Outcomes) (text text' : ℤ × List ℕ) (job job' : List ℕ → Subscription → NotifyThread)
    (sid : List ℕ) (now now' : ℤ) (u : Subscription) (s : ServiceInfo)
    → find_sid sid s.subscription_list ≡ some u
    → is_expired now u ≡ false
    → u.active ≡ false
    → let again =
        get_subscription_sid sid now'
          (init_found o text job sid (get_subscription_sid sid now s)).1 in
      init_found o' text' job' sid again ≡ (rc Status.invalid_sid, again.1, none)
unfolding init_found IsActivated
init-once o o' text text' job job' sid now now' u s e x a =
    let first = init_subscription o text job sid u s in
    let (v, p, q, r) = init-IsActivated o text job sid u s e in
    let one : init_found o text job sid (get_subscription_sid sid now s) ≡ first =
      ap (init_found o text job sid) (found_lem sid now s u e x) ∙ rw a refl in
    let twice : init_found o' text' job' sid (get_subscription_sid sid now' first.1)
        ≡ (rc Status.invalid_sid, (get_subscription_sid sid now' first.1).1, none) =
      init_refused o' text' job' sid (get_subscription_sid sid now' first.1)
        (λ w f. ap (λ z. z.active) (found_only sid now' first.1 v w p f) ∙ q) in
    rw one twice

-- For a subscription as `genaSubscriptionRequest` has just put it into the service, not
-- expired at the call, `genaInitNotify`, when the text is made and everything gets its memory, hands over
-- one job, with the text, its headers, the names and the key 0, returns 0, and leaves the subscription
-- active with the key 1 for the next event.
pub subscribe-init :
    (o : Outcomes) (text udn serv_id : List ℕ) (handle now : ℤ) (v : Subscription) (s : ServiceInfo)
    → o.headers ≡ true
    → o.thread ≡ true
    → o.pool ≡ pos 0
    → is_expired now v ≡ false
    → let u = record v { active = false; event_key = pos 0 } in
      init_found o
        (pos 0, text)
        (initial_job handle udn serv_id u.sid)
        u.sid
        (get_subscription_sid u.sid now (with_subscription s u))
      ≡ (
        pos 0,
        with_subscription s (record v { active = true; event_key = pos 1 }),
        some (record {
          headers = headers_text text;
          property_set = text;
          serv_id = serv_id;
          udn = udn;
          sid = v.sid;
          event_key = pos 0;
          device_handle = handle;
        }),
      )
unfolding init_found init_subscription ◌+ℤ◌
subscribe-init o text udn serv_id handle now v s h t p x =
    let u = record v { active = false; event_key = pos 0 } in
    ap (init_found o (pos 0, text) (initial_job handle udn serv_id u.sid) u.sid)
      (found_lem u.sid now (with_subscription s u) u (find_first u s.subscription_list) x)
    ∙ rw
        (
          h,
          t,
          p,
          update_first u activate s.subscription_list,
          update_first (activate u) take_key s.subscription_list,
        )
        refl
