-- ===== src/Gena/Client/Unsubscribe.antt =====
-- src/gena/gena_client.c: `genaUnSubscribe`, on the table of handles.
use upnpsdk.Prelude.{
  ℕ, ◌≡◌, refl, sym, ◌∙◌, Bool, Bool-cases, false, not, inl, inr, Option, none, some, List, [], ◌∷◌,
  if◌then◌else◌, length, bytes, arith, str_eq, str_eq_iff,
}
use upnpsdk.Prelude.Int.{ℤ, pos, eqb_ℤ}
use upnpsdk.Prelude.Search.{starts_with}
use upnpsdk.Codes.{Status, rc}
use upnpsdk.Timer.{Timer}
use upnpsdk.ClientTable.{
  ClientSubscription, copy_client_subscription, free_client_subscription,
  remove_client_sub_client_sid, get_client_sub_client_sid,
}
use upnpsdk.ClientTable.Lookup.{HasUniqueSids, get-remove, remove-HasUniqueSids}
use upnpsdk.Api.Handles.{
  HandleType, HandleInfo, HandleTable, handle_type_value, get_handle_info, index, put, num_handle,
}
use upnpsdk.Http.Message.{Message, parse_http_response}
use upnpsdk.Gena.Client.{Unsubscribe, unsubscribe_text, with_list}
use upnpsdk.Gena.Client.Drained.{lookup_put}

-- How a call ends. There is no code where the parsing of the answer gets no memory for a header.
pub record Ended : Type 0 where
  pub code : Option ℤ
  pub table : HandleTable
  pub timer : Timer
  pub sent : Option Unsubscribe

-- The code 1 is HTTP_SUCCESS.
unfoldable pub accepted : Status × Message → ℤ
unfolding starts_with
accepted (Status.success, m) =
    if not (starts_with (bytes "200") m.status.status_code)
    then rc Status.unsubscribe_unaccepted
    else rc Status.success
accepted (other, m) = rc other

-- The result of `transferHTTP`, with the answer, in a call with memory for so many headers. What the
-- parsed message holds before is `out`.
unfoldable pub unsubscribe_answer : ℕ → Message → ℤ × List ℕ → Option ℤ
unfolding accepted
unsubscribe_answer room out (code, response) =
    if not (eqb_ℤ code (pos 1))
    then some code
    else elim (parse_http_response room response out) [ none ↦ none | some r ↦ some (accepted r) ]

module _ (memory request : Bool) (transfer : Unsubscribe → ℤ × List ℕ) (room : ℕ)
    (out : Message) where
  -- With the copy, once the subscription is out of the table.
  unfoldable pub un_subscribed : HandleTable → Timer → Option ClientSubscription → Ended
  unfolding unsubscribe_answer
  un_subscribed t timer none = record {
    code = some (rc Status.outof_memory);
    table = t;
    timer = timer;
    sent = none;
  }
  un_subscribed t timer (some copy) =
      if not request
      then record { code = some (rc Status.outof_memory); table = t; timer = timer; sent = none }
      else record {
        code = unsubscribe_answer room out (transfer (unsubscribe_text copy));
        table = t;
        timer = free_client_subscription copy timer;
        sent = some (unsubscribe_text copy);
      }

  unfoldable pub un_subscribe : ℤ → List ℕ → HandleTable → Timer → Ended
  unfolding un_subscribed get_handle_info get_client_sub_client_sid remove_client_sub_client_sid
  un_subscribe handle sid t timer =
      let (type, found) = get_handle_info t handle none in
      let fails : Option ℤ → Ended =
        λ code. record { code = code; table = t; timer = timer; sent = none } in
      if not (eqb_ℤ type (handle_type_value HandleType.client))
      then fails (some (rc Status.invalid_handle))
      else elim found [
        | none ↦ fails none
        | some info ↦ elim (get_client_sub_client_sid info.client_sub_list sid) [
          | none ↦ fails (some (rc Status.invalid_sid))
          | some s ↦
              let (l, timer') = remove_client_sub_client_sid info.client_sub_list sid timer in
              un_subscribed (put (index handle) (some (with_list info l)) t) timer'
                (copy_client_subscription memory memory s)
        ]
      ]

  un_subscribed-table :
      (t : HandleTable) (timer : Timer) (o : Option ClientSubscription)
      → (un_subscribed t timer o).table ≡ t
  unfolding un_subscribed
  un_subscribed-table t timer none = refl
  un_subscribed-table t timer (some copy) = elim (Bool-cases request) [
    | inl e ↦ rw e refl
    | inr e ↦ rw e refl
  ]

remove-missing_sid :
    (l : List ClientSubscription) (sid : List ℕ) (timer : Timer)
    → get_client_sub_client_sid l sid ≡ none
    → remove_client_sub_client_sid l sid timer ≡ (l, timer)
unfolding get_client_sub_client_sid remove_client_sub_client_sid
remove-missing_sid [] sid timer e = refl
remove-missing_sid (s ∷ l) sid timer e = elim (Bool-cases (str_eq s.sid sid)) [
  | inl hit ↦ let r : some s ≡ none = sym (rw hit refl) ∙ e in absurd cc
  | inr miss ↦
      let r : get_client_sub_client_sid l sid ≡ none = sym (rw miss refl) ∙ e in
      let m : str_eq sid s.sid ≡ false =
        grind (arith, str_eq_iff s.sid sid, str_eq_iff sid s.sid) in
      rw (m, remove-missing_sid l sid timer r) refl
]

-- A control point without a subscription, the others as they were.
pub record IsForgotten (h : ℤ) (info : HandleInfo) (sid : List ℕ) (t : HandleTable) : Type 0 where
  pub list : List ClientSubscription
  pub found : get_handle_info t h none ≡ (pos 0, some (with_list info list))
  pub rest :
      (other : List ℕ)
      → get_client_sub_client_sid list other
        ≡ (if str_eq sid other then none else get_client_sub_client_sid info.client_sub_list other)
  pub unique : HasUniqueSids list

-- Whatever `genaUnSubscribe` returns, and whether there is memory or an answer of the publisher or not,
-- a control point of a table of 200 slots whose identifiers are distinct has afterwards no subscription
-- with the identifier, finds every other one as before, and has distinct identifiers still.
pub un_subscribe-IsForgotten :
    (memory request : Bool) (transfer : Unsubscribe → ℤ × List ℕ) (room : ℕ) (out : Message) (h : ℤ)
    (sid : List ℕ) (t : HandleTable) (timer : Timer) (info : HandleInfo)
    → HasUniqueSids info.client_sub_list
    → length t ≡ num_handle
    → get_handle_info t h none ≡ (pos 0, some info)
    → IsForgotten h info sid (un_subscribe memory request transfer room out h sid t timer).table
unfolding un_subscribe
un_subscribe-IsForgotten memory request transfer room out h sid t timer info u n e =
    go (get_client_sub_client_sid info.client_sub_list sid) refl
  where
    removed : List ClientSubscription × Timer
    removed = remove_client_sub_client_sid info.client_sub_list sid timer

    forgotten :
        (t' : HandleTable)
        → get_handle_info t' h none ≡ (pos 0, some (with_list info removed.0))
        → IsForgotten h info sid t'
    forgotten t' f = record {
      list = removed.0;
      found = f;
      rest = λ other. get-remove info.client_sub_list sid other timer u;
      unique = remove-HasUniqueSids info.client_sub_list sid timer u;
    }

    go :
        (o : Option ClientSubscription)
        → get_client_sub_client_sid info.client_sub_list sid ≡ o
        → IsForgotten h info sid (un_subscribe memory request transfer room out h sid t timer).table
    go none f =
        let k : (un_subscribe memory request transfer room out h sid t timer).table ≡ t =
          rw (un_subscribe, e, f) refl in
        let m = remove-missing_sid info.client_sub_list sid timer f in forgotten _ (rw (k, m) e)
    go (some s) f =
        let k : (un_subscribe memory request transfer room out h sid t timer).table
            ≡ put (index h) (some (with_list info removed.0)) t =
          rw (un_subscribe, e, f) (un_subscribed-table memory request transfer room out _ _ _) in
        forgotten _ (rw k (lookup_put t h info removed.0 n e))
