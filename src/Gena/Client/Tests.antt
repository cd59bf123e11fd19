-- ===== src/Gena/Client/Tests.antt =====
-- The theorems on `genaUnregisterClient` and `genaUnSubscribe` at a control point with two
-- subscriptions, and runs of `UpnpUnRegisterClient`.
use upnpsdk.Prelude.{
  ◌≡◌, refl, arith, Bool, true, false, none, some, List, [], ◌∷◌, ℕ, bytes, length,
}
use upnpsdk.Prelude.Int.{ℤ, pos}
use upnpsdk.Codes.{Status, rc}
use upnpsdk.Timer.{idle_timer}
use upnpsdk.ClientTable.{ClientSubscription, copy_client_subscription, free_client_sub_list}
use upnpsdk.Api.Handles.{
  HandleTable, num_handle, init_handle_list, put, client_info, get_handle_info,
}
use upnpsdk.Gena.Client.{Unsubscribe, with_list, unregister_loop, unregistered, unregister_client}
use upnpsdk.Http.Text.{parse_not_lws, parse_lws, parse_http_line}
use upnpsdk.ClientTable.Lookup.{HasUniqueSids}
use upnpsdk.Http.Uri.{UriType, PathType, Uri, no_host}
use upnpsdk.Http.Message.{RequestLine, Message, parse_http_response}
use upnpsdk.Gena.Client.Unsubscribe.{
  accepted, unsubscribe_answer, un_subscribe, IsForgotten, un_subscribe-IsForgotten,
}
use upnpsdk.Gena.Client.Drained.{IsDrained, unregister-IsDrained}

abbrev lamp : ClientSubscription
lamp = record {
  sid = bytes "a1";
  actual_sid = bytes "uuid:77";
  event_url = bytes "/e";
  renew_event_id = 4;
}

abbrev fan : ClientSubscription
fan = record {
  sid = bytes "b2";
  actual_sid = bytes "uuid:9";
  event_url = bytes "/f";
  renew_event_id = 5;
}

abbrev both : List ClientSubscription
both = lamp ∷ fan ∷ []

abbrev table : HandleTable
table = put 1 (some (with_list (client_info 7 0) both)) init_handle_list

table_size : length table ≡ num_handle
unfolding put init_handle_list
table_size = refl

found_both : get_handle_info table (pos 1) none ≡ (pos 0, some (with_list (client_info 7 0) both))
unfolding get_handle_info put init_handle_list
found_both = refl

abbrev always : ℕ → Bool
always j = true

-- The copy of the first subscription fails: the call fails, the handle keeps the freed list.
unregister_short :
    unregister_client (λ j. false) always 3 (pos 1) table idle_timer
    ≡ some (
      rc Status.invalid_handle,
      record {
        code = pos 1;
        table = table;
        timer = free_client_sub_list both idle_timer;
        sent = [];
        dangles = true;
      },
    )
unfolding unregister_client unregister_loop unregistered get_handle_info put init_handle_list rc
    copy_client_subscription
unregister_short = refl

unregister-IsDrained_example :
    IsDrained
      (pos 1)
      (client_info 7 0)
      both
      idle_timer
      (unregister_loop always always 3 0 (pos 1) table idle_timer)
unregister-IsDrained_example =
    unregister-IsDrained always always 3 0 (pos 1) table idle_timer (client_info 7 0) both
      (λ j. (refl, refl)) (omega arith, (omega arith, tt)) (omega arith) table_size found_both

abbrev empty_uri : Uri
empty_uri = record {
  type = UriType.relative;
  scheme = [];
  path_type = PathType.rel_path;
  pathquery = [];
  fragment = [];
  hostport = no_host;
}

abbrev no_request : RequestLine
no_request = record { method = []; request_uri = empty_uri; http_version = [] }

abbrev nothing : Message
nothing = record {
  status = record { http_version = []; status_code = []; reason_phrase = [] };
  request = no_request;
  header_list = [];
  content = [];
  content_size = pos 0;
}

abbrev answers : Unsubscribe → ℤ × List ℕ
answers u = (pos 1, bytes "HTTP/1.1 412 No\r\n\r\n")

-- The publisher refuses.
refused : unsubscribe_answer 5 nothing (answers ([], [])) ≡ some (rc Status.unsubscribe_unaccepted)
unfolding unsubscribe_answer accepted rc parse_http_response parse_not_lws parse_lws parse_http_line
refused = refl

both-HasUniqueSids : HasUniqueSids both
both-HasUniqueSids = ((λ e. grind (arith, e), tt), (tt, tt))

un_subscribe-IsForgotten_example :
    IsForgotten
      (pos 1)
      (with_list (client_info 7 0) both)
      (bytes "a1")
      (un_subscribe true true answers 5 nothing (pos 1) (bytes "a1") table idle_timer).table
un_subscribe-IsForgotten_example =
    un_subscribe-IsForgotten true true answers 5 nothing (pos 1) (bytes "a1") table idle_timer
      (with_list (client_info 7 0) both) both-HasUniqueSids table_size found_both
