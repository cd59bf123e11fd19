-- ===== src/Http/Request.antt =====
-- The parsing of requests in src/genlib/http_client/http_client.c.
use upnpsdk.Prelude.{
  ℕ, ◌+◌, ◌-◌, Bool, Option, some, List, [], if◌then◌else◌, ◌==◌, take, drop, ◌>>=◌,
}
use upnpsdk.Prelude.Int.{ℤ, pos, eqb_ℤ}
use upnpsdk.Codes.{Status}
use upnpsdk.Http.Text.{parse_lws, parse_not_lws, parse_token, parse_http_line}
use upnpsdk.Http.Uri.{Uri, parse_uri}
use upnpsdk.Http.Message.{RequestLine, Message, parse_headers}

-- The steps of `parse_request_line`, from the last to the first. `size` counts the bytes passed, and
-- the list is what is behind them; the result 0 is an error.
unfoldable pub version : RequestLine → ℕ → List ℕ → ℕ × RequestLine
version out size rest =
    let n = parse_http_line rest in
    if n == 0 then (0, out) else (size + n, record out { http_version = take (n - 2) rest })

-- The word of the URI is passed over.
unfoldable pub behind_uri : RequestLine → ℕ → List ℕ → ℕ × List ℕ → ℕ × RequestLine
unfolding version
behind_uri out size rest (n, word) =
    let blanks = parse_lws (drop n rest) in
    version out (size + n + blanks) (drop blanks (drop n rest))

-- With the result of `parse_uri`, of which only 0 counts as an error.
unfoldable pub uri_word : RequestLine → ℕ → ℤ × Uri → List ℕ → ℕ × RequestLine
unfolding behind_uri
uri_word out size (result, uri) rest =
    if eqb_ℤ result (pos 0)
    then (0, record out { request_uri = uri })
    else behind_uri (record out { request_uri = uri }) size rest (parse_not_lws rest)

unfoldable pub behind_method :
    (List ℕ → Option ℕ) → Bool → RequestLine → ℕ × List ℕ → List ℕ → ℕ × RequestLine
unfolding uri_word
behind_method resolve malloc_ok old (n, method) rest =
    let out : RequestLine = record old { method = method; http_version = [] } in
    let blanks = parse_lws (drop n rest) in
    let behind = drop blanks (drop n rest) in
    if n == 0
    then (0, out)
    else uri_word out (n + blanks) (parse_uri resolve malloc_ok behind out.request_uri) behind

-- The result, and what stands in `*out`, where `out` stood before.
unfoldable pub parse_request_line :
    (List ℕ → Option ℕ) → Bool → List ℕ → RequestLine → ℕ × RequestLine
unfolding behind_method
parse_request_line resolve malloc_ok input out =
    behind_method resolve malloc_ok out (parse_token input) input

-- What `parse_http_request` makes of the result of `parse_headers`.
unfoldable pub request_result : Status × Message → Option (Status × Message)
request_result (Status.success, m) = some (Status.success, m)
request_result (other, m) = some (Status.bad_request, m)

unfoldable pub behind_request : ℕ → Message → ℕ × RequestLine → List ℕ → Option (Status × Message)
unfolding request_result
behind_request room out (n, request) input =
    if n == 0
    then some (Status.bad_request, record out { request = request })
    else parse_headers room (drop n input) (record out { request = request }) >>= request_result

unfoldable pub parse_http_request :
    (List ℕ → Option ℕ) → Bool → ℕ → List ℕ → Message → Option (Status × Message)
unfolding parse_request_line behind_request
parse_http_request resolve malloc_ok room input out =
    behind_request room out (parse_request_line resolve malloc_ok input out.request) input
