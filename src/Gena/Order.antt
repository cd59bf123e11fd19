-- ===== src/Gena/Order.antt =====
-- The events of one subscription in src/gena/gena_server.c: the keys that `genaInitNotify` and
-- `genaNotifyAll` issue, and the turns of `genaNotifyThread`, whose jobs the thread pool may run in any
-- order and at once, as a step relation. The jobs are named by the number of their event, and the
-- subscription stays in its service.
pub mod Keys
pub mod Invariant
pub mod Serial
pub mod Lost
mod Tests
use upnpsdk.Prelude.{
  ℕ, zero, suc, ◌+◌, ◌<◌, ◌≡◌, Bool, true, false, List, [], ◌∷◌, if◌then◌else◌, ◌==◌, some,
}
use upnpsdk.Prelude.Int.{ℤ, pos}
use upnpsdk.ServiceTable.{Subscription}
use upnpsdk.Gena.Notify.{issue}
use upnpsdk.Gena.Thread.{Start, requeued, sends, start_found, sent}

-- Of the job of an event: not there yet, with the thread pool, between its two stretches, freed.
pub data Phase : Type 0 where
  unissued waiting sending over : Phase

-- `done` counts the jobs that have ended, and `begun` holds the events whose messages have begun to be
-- sent, the last first.
pub record Channel : Type 0 where
  pub sub : Subscription
  pub issued : ℕ
  pub done : ℕ
  pub key : ℕ → ℤ
  pub phase : ℕ → Phase
  pub begun : List ℕ

abbrev pub set_at {ℓ} : {A : Type ℓ} → ℕ → A → (ℕ → A) → ℕ → A
set_at n a f m = if m == n then a else f m

-- There are so many keys but 0.
abbrev pub key_count : ℕ
key_count = 2147483647

abbrev pub do_issue : Channel → Channel
do_issue c = record c {
  sub = issue c.sub;
  issued = c.issued + 1;
  key = set_at c.issued c.sub.event_key c.key;
  phase = set_at c.issued waiting c.phase;
}

abbrev pub do_start : ℕ → Channel → Channel
do_start n c = record c { phase = set_at n sending c.phase; begun = n ∷ c.begun }

abbrev pub do_end : ℕ → Channel → Channel
do_end n c = record c { sub = sent c.sub; done = c.done + 1; phase = set_at n over c.phase }

-- An event is issued only while fewer than `key_count` - 1 wait. In these steps the pool takes every job
-- that is handed back, every copy of the subscription gets its memory, and the subscription neither
-- expires nor is removed.
pub data Step : Channel → Channel → Type 0 where
  issues : (c : Channel) → c.issued + 1 < c.done + key_count → Step c (do_issue c)
  requeues :
      (c : Channel) (n : ℕ)
      → c.phase n ≡ waiting
      → start_found true (c.key n) (some c.sub) ≡ requeued
      → Step c c
  starts :
      (c : Channel) (n : ℕ) (copy : Subscription)
      → c.phase n ≡ waiting
      → start_found true (c.key n) (some c.sub) ≡ sends copy
      → Step c (do_start n c)
  finishes : (c : Channel) (n : ℕ) → c.phase n ≡ sending → Step c (do_end n c)

pub data Steps : Channel → Channel → Type 0 where
  stay : (c : Channel) → Steps c c
  then : (a b c : Channel) → Steps a b → Step b c → Steps a c

-- A subscription as `genaSubscriptionRequest` makes it, with no job.
abbrev pub fresh : Subscription → Channel
fresh s = record {
  sub = record s { event_key = pos 0; to_send_event_key = pos 0 };
  issued = 0;
  done = 0;
  key = λ n. pos 0;
  phase = λ n. unissued;
  begun = [];
}

-- `genaNotifyThread` does not look at what `tpool_Schedule` returns when it hands its own job back: a
-- job that the pool does not take is lost.
abbrev pub do_lose : ℕ → Channel → Channel
do_lose n c = record c { phase = set_at n over c.phase }
