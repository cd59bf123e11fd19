-- ===== src/Gena/Notify.antt =====
-- src/gena/gena_server.c: the loop of `genaNotifyAll` and `genaNotifyAllExt`, which hands one job for
-- each subscription to the thread pool. `memory` and `tpool` say what `malloc` and `tpool_Schedule`
-- return in the round of a number.
pub mod Serve
pub mod Rounds
pub mod Outcome
use upnpsdk.Prelude.{
  ℕ, zero, suc, ◌+◌, Bool, true, false, not, ◌&&◌, Option, none, some, List, [], ◌∷◌, ◌++◌,
  if◌then◌else◌, get_elem?, set_elem,
}
use upnpsdk.Prelude.Int.{ℤ, pos, negsuc, eqb_ℤ}
use upnpsdk.Codes.{Status, rc}
use upnpsdk.ServiceTable.{
  Subscription, ServiceInfo, get_first_subscription, get_next_subscription, is_expired,
}
use upnpsdk.Gena.{NotifyThread, next_key}

-- `finger->eventKey++` with the wrap to 1.
abbrev pub issue : Subscription → Subscription
issue s = record s { event_key = next_key s.event_key }

-- The job of a subscription; `event` holds what all the jobs of one event share.
abbrev pub job_of : NotifyThread → Subscription → NotifyThread
job_of event s = record event { sid = s.sid; event_key = s.event_key }

-- -1 is the thread pool's code for no memory.
abbrev pub pool_code : ℤ → ℤ
pool_code r = if eqb_ℤ r (negsuc 0) then rc Status.outof_memory else r

-- The state of the loop; the reference count is the number of rounds begun.
pub record Notified : Type 0 where
  pub service : ServiceInfo
  pub jobs : List NotifyThread
  pub reference_count : ℕ
  pub return_code : ℤ

abbrev pub issued_at : ℕ → Subscription → Notified → Notified
issued_at i x st = record st {
  service = record st.service {
    subscription_list = set_elem i (issue x) st.service.subscription_list;
  };
  reference_count = st.reference_count + 1;
}

-- From a position on; `none` is fuel that ran out, or a position that is not in the list. `break` stands
-- before the assignment of the error where the memory is short.
unfoldable pub notify_loop :
    (ℕ → Bool) → (ℕ → ℤ) → NotifyThread → ℤ → ℕ → Option ℕ → Notified → Option Notified
notify_loop memory tpool event now zero finger st = none
notify_loop memory tpool event now (suc fuel) none st = some st
notify_loop memory tpool event now (suc fuel) (some i) st =
    elim (get_elem? st.service.subscription_list i) [
      | none ↦ none
      | some x ↦
          let issued = issued_at i x st in
          let result = tpool st.reference_count in
          let (finger, service) = get_next_subscription now issued.service i in
          let rest = notify_loop memory tpool event now fuel finger (record issued {
            service = service;
            jobs = st.jobs ++ (job_of event x ∷ []);
            return_code = result;
          }) in
          if not (memory st.reference_count)
          then some st
          else if not (eqb_ℤ result (pos 0))
          then some (record issued { return_code = pool_code result })
          else rest
    ]

unfoldable pub notify_service :
    (ℕ → Bool) → (ℕ → ℤ) → NotifyThread → ℤ → ℕ → ServiceInfo → Option Notified
unfolding notify_loop
notify_service memory tpool event now fuel service =
    let (finger, service) = get_first_subscription now service in
    notify_loop memory tpool event now fuel finger
      (record { service = service; jobs = []; reference_count = 0; return_code = pos 0 })
