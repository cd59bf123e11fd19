-- ===== src/Gena/Client/Drained.antt =====
-- What `genaUnregisterClient` of src/gena/gena_client.c does to the subscriptions of a control point.
use upnpsdk.Prelude.{
  ℕ, zero, suc, ◌+◌, ◌≤◌, ◌<◌, ◌≡◌, refl, sym, ap, ◌∙◌, subst, Bool, true, false, Option, none,
  some, List, [], ◌∷◌, map, All, arith, if◌then◌else◌, length, take, take_all, str_eq_refl,
}
use upnpsdk.Prelude.Int.{ℤ, pos, negsuc}
use upnpsdk.Codes.{Status, rc}
use upnpsdk.Timer.{Timer}
use upnpsdk.ClientTable.{
  ClientSubscription, copy_client_subscription, free_client_subscription, free_client_sub_list,
  remove_client_sub_client_sid, sid_size,
}
use upnpsdk.Api.Handles.{
  HandleInfo, HandleTable, handle_type_value, get_handle_info, index, put, slot, out_of_range,
  num_handle,
}
use upnpsdk.Api.Handles.Lookup.{slot-put, length-put}
use upnpsdk.Gena.Client.{
  unsubscribe_text, Unregistered, ends_with, sends_first, with_list, round, unregister_loop,
}

index-in_range : (h : ℤ) → out_of_range h ≡ false → index h < num_handle
index-in_range (pos n) e = ground (arith, e)
index-in_range (negsuc n) e = ground (arith, e)

-- What the lookup of a control point finds.
lookup_parts :
    (t : HandleTable) (h : ℤ) (info : HandleInfo)
    → get_handle_info t h none ≡ (pos 0, some info)
    → (out_of_range h ≡ false) × (handle_type_value info.htype ≡ pos 0)
unfolding get_handle_info
lookup_parts t h info e = go (out_of_range h) (slot (index h) t) refl e
  where
    go :
        (b : Bool) (o : Option HandleInfo)
        → out_of_range h ≡ b
        → if◌then◌else◌ {A = ℤ × Option HandleInfo} b
            (rc Status.invalid_handle, none)
            (elim o [
              | none ↦ (rc Status.invalid_handle, none)
              | some j ↦ (handle_type_value j.htype, some j)
            ])
          ≡ (pos 0, some info)
        → (out_of_range h ≡ false) × (handle_type_value info.htype ≡ pos 0)
    go true o p q = absurd (let r = ap (λ x. x.1) q in cc)
    go false none p q = absurd (let r = ap (λ x. x.1) q in cc)
    go false (some j) p q =
        let r : some j ≡ some info = ap (λ x. x.1) q in
        let k : j ≡ info = cc in (p, sym (ap (λ x. handle_type_value x.htype) k) ∙ ap (λ x. x.0) q)

-- The lookup behind a change of the list.
pub lookup_put :
    (t : HandleTable) (h : ℤ) (info : HandleInfo) (l : List ClientSubscription)
    → length t ≡ num_handle
    → get_handle_info t h none ≡ (pos 0, some info)
    → get_handle_info (put (index h) (some (with_list info l)) t) h none
      ≡ (pos 0, some (with_list info l))
unfolding get_handle_info
lookup_put t h info l n e =
    let (p, q) = lookup_parts t h info e in
    let s : slot (index h) (put (index h) (some (with_list info l)) t) ≡ some (with_list info l) =
      slot-put (index h) (index h) (some (with_list info l)) t
        (let b = index-in_range h p in omega (arith, b, n))
      ∙ ground arith in
    rw (get_handle_info, p, s) (ap (λ x. (x, some (with_list info l))) q)

remove-head :
    (s : ClientSubscription) (l : List ClientSubscription) (timer : Timer)
    → length s.sid ≤ sid_size
    → remove_client_sub_client_sid (s ∷ l) (take sid_size s.sid) timer
      ≡ (l, free_client_subscription s timer)
unfolding remove_client_sub_client_sid free_client_sub_list
remove-head s l timer h = rw (take_all sid_size s.sid h, str_eq_refl s.sid) refl

-- One round of the loop, when there is memory.
loop_step :
    (copies requests : ℕ → Bool) (fuel i : ℕ) (h : ℤ) (t : HandleTable) (timer : Timer)
    (info : HandleInfo) (s : ClientSubscription) (l : List ClientSubscription)
    → copies i ≡ true
    → requests i ≡ true
    → length s.sid ≤ sid_size
    → get_handle_info t h none ≡ (pos 0, some (with_list info (s ∷ l)))
    → unregister_loop copies requests (suc fuel) i h t timer
      ≡ sends_first (unsubscribe_text s) (
          unregister_loop copies requests fuel
            (i + 1)
            h
            (put (index h) (some (with_list info l)) t)
            (free_client_subscription s timer))
unfolding unregister_loop round copy_client_subscription unsubscribe_text
loop_step copies requests fuel i h t timer info s l c r b e =
    rw (unregister_loop, e, c, remove-head s l timer b, r) refl

loop_end :
    (copies requests : ℕ → Bool) (fuel i : ℕ) (h : ℤ) (t : HandleTable) (timer : Timer)
    (info : HandleInfo)
    → get_handle_info t h none ≡ (pos 0, some (with_list info []))
    → unregister_loop copies requests (suc fuel) i h t timer
      ≡ some (ends_with (rc Status.success) t timer)
unfolding unregister_loop
loop_end copies requests fuel i h t timer info e = rw (unregister_loop, e) refl

-- How the loop ends when everything gets its memory.
pub record IsDrained (h : ℤ) (info : HandleInfo) (l : List ClientSubscription) (timer : Timer)
    (o : Option Unregistered) : Type 0 where
  pub ending : Unregistered
  pub ends : o ≡ some ending
  pub code : ending.code ≡ rc Status.success
  pub sent : ending.sent ≡ map unsubscribe_text l
  pub freed : ending.timer ≡ free_client_sub_list l timer
  pub found : get_handle_info ending.table h none ≡ (pos 0, some (with_list info []))
  pub kept : ending.dangles ≡ false

sends-IsDrained :
    (h : ℤ) (info : HandleInfo) (s : ClientSubscription) (l : List ClientSubscription)
    (timer : Timer) (o : Option Unregistered)
    → IsDrained h info l (free_client_subscription s timer) o
    → IsDrained h info (s ∷ l) timer (sends_first (unsubscribe_text s) o)
unfolding sends_first free_client_sub_list
sends-IsDrained h info s l timer o d = record {
  ending = record d.ending { sent = unsubscribe_text s ∷ d.ending.sent };
  ends = rw d.ends refl;
  code = d.code;
  sent = ap (◌∷◌ (unsubscribe_text s)) d.sent;
  freed = d.freed;
  found = d.found;
  kept = d.kept;
}

-- `genaUnregisterClient` on a control point in a table of 200 slots, whose identifiers have 41 bytes at
-- most, ends, with as many rounds as there are subscriptions and one more, when every copy and request
-- gets its memory: it sends one UNSUBSCRIBE for each subscription, in their order, with the
-- publisher's identifier, whatever comes of the requests, takes every renewal out of the timer, leaves
-- the control point with no subscription, and returns UPNP_E_SUCCESS.
pub unregister-IsDrained :
    (copies requests : ℕ → Bool) (fuel i : ℕ) (h : ℤ) (t : HandleTable) (timer : Timer)
    (info : HandleInfo) (l : List ClientSubscription)
    → ((j : ℕ) → (copies j ≡ true) × (requests j ≡ true))
    → All (λ s. length s.sid ≤ sid_size) l
    → length l < fuel
    → length t ≡ num_handle
    → get_handle_info t h none ≡ (pos 0, some (with_list info l))
    → IsDrained h info l timer (unregister_loop copies requests fuel i h t timer)
unfolding free_client_sub_list
unregister-IsDrained copies requests zero i h t timer info l m a b n e = absurd (omega arith)
unregister-IsDrained copies requests (suc fuel) i h t timer info [] m a b n e = record {
  ending = ends_with (rc Status.success) t timer;
  ends = loop_end copies requests fuel i h t timer info e;
  code = refl;
  sent = refl;
  freed = refl;
  found = e;
  kept = refl;
}
unregister-IsDrained copies requests (suc fuel) i h t timer info (s ∷ l) m a b n e =
    let t' = put (index h) (some (with_list info l)) t in
    let rest =
      unregister-IsDrained copies requests fuel (i + 1) h t' (free_client_subscription s timer) info
        l m a.1 (omega arith) (length-put (index h) (some (with_list info l)) t ∙ n)
        (lookup_put t h (with_list info (s ∷ l)) l n e) in
    subst (IsDrained h info (s ∷ l) timer)
      (sym (loop_step copies requests fuel i h t timer info s l (m i).0 (m i).1 a.0 e))
      (sends-IsDrained h info s l timer
        (unregister_loop copies requests fuel (i + 1) h t' (free_client_subscription s timer)) rest)
