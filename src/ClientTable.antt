-- ===== src/ClientTable.antt =====
-- src/genlib/client_table/client_table.c: the control point's list of subscriptions. The list owns its
-- nodes, so it is a `List`; freeing a node takes its renewal out of the timer
-- (src/genlib/timer_thread/timer_thread.c), whose new state is returned.
pub mod Lookup
mod Tests
use upnpsdk.Prelude.{
  ℕ, Bool, true, false, not, ◌||◌, Option, none, some, List, [], ◌∷◌, ◌++◌, if◌then◌else◌, take,
  str_eq,
}
use upnpsdk.Prelude.Search.{starts_with}
use upnpsdk.Timer.{Timer, remove_timer_event, no_event}

-- `client_subscription`; `renew_event_id` is the pattern of the `int`.
pub record ClientSubscription : Type 0 where
  pub sid : List ℕ
  pub actual_sid : List ℕ
  pub event_url : List ℕ
  pub renew_event_id : ℕ

abbrev pub sid_size : ℕ
sid_size = 41

-- The flags are the outcomes of the two `malloc`s; `none` is UPNP_E_OUTOF_MEMORY.
unfoldable pub copy_client_subscription :
    Bool → Bool → ClientSubscription → Option ClientSubscription
copy_client_subscription sid_ok url_ok s =
    if not url_ok || not sid_ok
    then none
    else some (record s { sid = take sid_size s.sid; renew_event_id = no_event })

-- The timer without the renewal; the block behind its argument is freed.
unfoldable pub free_client_subscription : ClientSubscription → Timer → Timer
free_client_subscription s t = (remove_timer_event s.renew_event_id none t).2

unfoldable pub free_client_sub_list : List ClientSubscription → Timer → Timer
unfolding free_client_subscription
free_client_sub_list [] t = t
free_client_sub_list (s ∷ l) t = free_client_sub_list l (free_client_subscription s t)

-- The first node of the identifier is unlinked and freed.
unfoldable pub remove_client_sub_client_sid :
    List ClientSubscription → List ℕ → Timer → List ClientSubscription × Timer
unfolding free_client_sub_list
remove_client_sub_client_sid [] sid t = ([], t)
remove_client_sub_client_sid (s ∷ l) sid t =
    let (rest, t') = remove_client_sub_client_sid l sid t in
    if str_eq sid s.sid then (l, free_client_sub_list (s ∷ []) t) else (s ∷ rest, t')

unfoldable pub get_client_sub_client_sid :
    List ClientSubscription → List ℕ → Option ClientSubscription
get_client_sub_client_sid [] sid = none
get_client_sub_client_sid (s ∷ l) sid =
    if str_eq s.sid sid then some s else get_client_sub_client_sid l sid

-- `memcmp` over as many bytes as the token has. The token holds no 0, so the terminator of a shorter
-- identifier ends the comparison.
pub get_client_sub_actual_sid : List ClientSubscription → List ℕ → Option ClientSubscription
unfolding starts_with
get_client_sub_actual_sid [] token = none
get_client_sub_actual_sid (s ∷ l) token =
    if starts_with token (s.actual_sid ++ (0 ∷ []))
    then some s
    else get_client_sub_actual_sid l token
