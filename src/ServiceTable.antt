-- ===== src/ServiceTable.antt =====
-- src/genlib/service_table/service_table.c: the subscriptions of a service, and the search for a
-- service. The lists own their nodes, so they are `List`s, and a pointer to a node of the list is the
-- node's position. The clock is an argument, read once in a call.
pub mod Traversal
pub mod Lookup
pub mod ByUrl
mod Tests
use upnpsdk.Prelude.{
  ℕ, zero, suc, ◌+◌, Bool, true, false, not, ◌&&◌, Option, none, some, List, [], ◌∷◌, ◌++◌,
  if◌then◌else◌, take, drop, str_eq, get_elem?,
}
use upnpsdk.Http.Uri.{Uri}
use upnpsdk.Prelude.Int.{ℤ, pos, negsuc, ◌-ℤ◌, ltb_ℤ, eqb_ℤ}

-- `URL_list`: the text, and the URLs that stand in it.
pub record UrlList : Type 0 where
  pub urls : List ℕ
  pub parsed_urls : List Uri

-- `subscription`.
pub record Subscription : Type 0 where
  pub sid : List ℕ
  pub event_key : ℤ
  pub to_send_event_key : ℤ
  pub expire_time : ℤ
  pub active : Bool
  pub delivery_urls : UrlList

-- `service_info`; NULL is `none` where the code tests for it.
pub record ServiceInfo : Type 0 where
  pub service_type : List ℕ
  pub scpd_url : List ℕ
  pub control_url : Option (List ℕ)
  pub event_url : Option (List ℕ)
  pub service_id : List ℕ
  pub udn : List ℕ
  pub active : Bool
  pub total_subscriptions : ℤ
  pub subscription_list : List Subscription

abbrev pub sid_size : ℕ
sid_size = 41

-- `urls_ok` says that `copy_URL_list` had the memory; `none` is its error.
unfoldable pub copy_subscription : Bool → Subscription → Option Subscription
copy_subscription urls_ok s =
    if urls_ok then some (record s { sid = take sid_size s.sid }) else none

-- The first node of the identifier is unlinked and freed; the flag says whether there was one.
unfoldable pub unlink : List ℕ → List Subscription → Bool × List Subscription
unlink sid [] = (false, [])
unlink sid (s ∷ l) =
    let (found, rest) = unlink sid l in if str_eq sid s.sid then (true, l) else (found, s ∷ rest)

unfoldable pub remove_subscription_sid : List ℕ → ServiceInfo → ServiceInfo
unfolding unlink
remove_subscription_sid sid service =
    let (found, rest) = unlink sid service.subscription_list in
    record service {
      subscription_list = rest;
      total_subscriptions =
          if found then service.total_subscriptions -ℤ pos 1 else service.total_subscriptions;
    }

-- An expiry time of 0 is no expiry.
abbrev pub is_expired : ℤ → Subscription → Bool
is_expired now s = not (eqb_ℤ s.expire_time (pos 0)) && ltb_ℤ s.expire_time now

unfoldable pub find_sid : List ℕ → List Subscription → Option Subscription
find_sid sid [] = none
find_sid sid (s ∷ l) = if str_eq s.sid sid then some s else find_sid sid l

-- The search stops at the first node of the identifier, which is unlinked if it has expired.
unfoldable pub get_subscription_sid : List ℕ → ℤ → ServiceInfo → Option Subscription × ServiceInfo
unfolding find_sid remove_subscription_sid
get_subscription_sid sid now service = elim (find_sid sid service.subscription_list) [
  | none ↦ (none, service)
  | some s ↦
      if is_expired now s then (none, remove_subscription_sid sid service) else (some s, service)
]

-- What the loop of `GetNextSubscription` makes of the nodes behind the current one: those that stay,
-- the position of the one it stops at, and how many it frees.
pub record Skipped : Type 0 where
  pub kept : List Subscription
  pub stop : Option ℕ
  pub freed : ℕ

unfoldable pub behind : Subscription → Skipped → Skipped
behind s r = record r {
  kept = s ∷ r.kept;
  stop = elim r.stop [ none ↦ none | some i ↦ some (suc i) ];
}

unfoldable pub skip : ℤ → List Subscription → Skipped
unfolding behind
skip now [] = record { kept = []; stop = none; freed = 0 }
skip now (s ∷ l) =
    let rest = skip now l in
    if is_expired now s
    then record rest { freed = rest.freed + 1 }
    else if s.active
    then record { kept = s ∷ l; stop = some 0; freed = 0 }
    else behind s rest

-- `current` is the position of a node of the list.
unfoldable pub get_next_subscription : ℤ → ServiceInfo → ℕ → Option ℕ × ServiceInfo
unfolding skip
get_next_subscription now service current =
    let r = skip now (drop (suc current) service.subscription_list) in
    (
      elim r.stop [ none ↦ none | some i ↦ some (suc current + i) ],
      record service {
        subscription_list = take (suc current) service.subscription_list ++ r.kept;
        total_subscriptions = service.total_subscriptions -ℤ pos r.freed;
      },
    )

-- With a node of its own put before the list.
unfoldable pub get_first_subscription : ℤ → ServiceInfo → Option ℕ × ServiceInfo
unfolding skip
get_first_subscription now service =
    let r = skip now service.subscription_list in
    (
      r.stop,
      record service {
        subscription_list = r.kept;
        total_subscriptions = service.total_subscriptions -ℤ pos r.freed;
      },
    )

-- `service_table`.
pub record ServiceTable : Type 0 where
  pub url_base : List ℕ
  pub service_list : List ServiceInfo

-- The position of a node behind the first one.
abbrev pub behind_one : Option ℕ → Option ℕ
behind_one none = none
behind_one (some i) = some (suc i)

-- `FindServiceId` over `serviceList`: the position of the first service of both names.
unfoldable pub find_service_id : List ServiceInfo → List ℕ → List ℕ → Option ℕ
find_service_id [] id udn = none
find_service_id (s ∷ l) id udn =
    let rest = find_service_id l id udn in
    if str_eq id s.service_id && str_eq udn s.udn then some 0 else behind_one rest

-- `freeServiceTable`: the memory behind `URLBase` is freed, and the pointer stays.
unfoldable pub free_service_table : ServiceTable → ServiceTable
free_service_table t = record t { service_list = [] }
