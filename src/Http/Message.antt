-- ===== src/Http/Message.antt =====
-- The parsing of status lines, headers and responses in src/genlib/http_client/http_client.c.
use upnpsdk.Prelude.{
  ℕ, zero, suc, ◌+◌, ◌-◌, Bool, true, false, ◌&&◌, Option, none, some, List, [], ◌∷◌, if◌then◌else◌,
  ltb, ◌==◌, take, drop, length, ◌>>=◌,
}
use upnpsdk.Prelude.Int.{ℤ, pos, negsuc, ◌-ℤ◌}
use upnpsdk.Prelude.Search.{eq_nocase}
use upnpsdk.Codes.{Status}
use upnpsdk.Http.Uri.{Uri}
use upnpsdk.Http.Text.{parse_lws, parse_not_lws, parse_token, parse_http_line, parse_header_value}

-- `http_status`.
pub record StatusLine : Type 0 where
  pub http_version : List ℕ
  pub status_code : List ℕ
  pub reason_phrase : List ℕ

-- `http_request`.
pub record RequestLine : Type 0 where
  pub method : List ℕ
  pub request_uri : Uri
  pub http_version : List ℕ

-- `http_header`.
pub record Header : Type 0 where
  pub header : List ℕ
  pub value : List ℕ

-- `http_message`. `content` is the bytes from `content.buff` on that may be read.
pub record Message : Type 0 where
  pub status : StatusLine
  pub request : RequestLine
  pub header_list : List Header
  pub content : List ℕ
  pub content_size : ℤ

-- The steps of `parse_status_line`, from the last to the first. `size` counts the bytes passed, and the
-- list is what is behind them; the result 0 is an error.
unfoldable pub reason : StatusLine → ℕ → List ℕ → ℕ × StatusLine
reason out size rest =
    let n = parse_http_line rest in
    if n == 0 then (0, out) else (size + n, record out { reason_phrase = take (n - 2) rest })

unfoldable pub behind_code : StatusLine → ℕ → ℕ × List ℕ → List ℕ → ℕ × StatusLine
unfolding reason
behind_code out size (n, code) rest =
    let blanks = parse_lws (drop n rest) in
    if n == 0
    then (0, record out { status_code = code })
    else reason (record out { status_code = code }) (size + n + blanks) (drop blanks (drop n rest))

unfoldable pub behind_version : ℕ × List ℕ → List ℕ → ℕ × StatusLine
unfolding behind_code
behind_version (n, version) rest =
    let out : StatusLine = record {
      http_version = version;
      status_code = [];
      reason_phrase = [];
    } in
    let blanks = parse_lws (drop n rest) in
    let behind = drop blanks (drop n rest) in
    if n == 0 then (0, out) else behind_code out (n + blanks) (parse_not_lws behind) behind

unfoldable pub parse_status_line : List ℕ → ℕ × StatusLine
unfolding behind_version
parse_status_line input = behind_version (parse_not_lws input) input

-- The loop of `parse_headers` ends here.
unfoldable pub at_end : List ℕ → Bool
at_end [] = true
at_end (c ∷ []) = true
at_end (c ∷ d ∷ l) = c == 13 && d == 10

-- One round: the header and what is behind its line, or UPNP_E_BAD_REQUEST.
pub data Round : Type 0 where
  bad_header : Round
  parsed : Header → List ℕ → Round

-- From the value on, with what `parse_header_value` makes of it.
unfoldable pub behind_value : List ℕ → List ℕ → ℤ × List ℕ → Option Round
behind_value name behind (pos k, value) =
    let line_end = drop k behind in
    some
      (parsed (record { header = name; value = value }) (drop (parse_http_line line_end) line_end))
behind_value name behind (negsuc k, value) = none

-- Behind the colon.
unfoldable pub header_value : List ℕ → List ℕ → Option Round
unfolding behind_value
header_value name input =
    let behind = drop (parse_lws input) input in
    behind_value name behind (parse_header_value behind)

-- Behind the name.
unfoldable pub behind_name : List ℕ → List ℕ → Option Round
unfolding header_value
behind_name name [] = none
behind_name name (c ∷ rest) = if c == 58 then header_value name rest else some bad_header

-- `none` is a read behind the last byte.
unfoldable pub parse_header : List ℕ → Option Round
unfolding behind_name
parse_header input =
    let (n, name) = parse_token input in
    if n == 0 then some bad_header else behind_name name (drop n input)

-- How the loop ends: the result, and the headers with what is behind them.
pub record Headers : Type 0 where
  pub result : Status
  pub list : List Header
  pub rest : List ℕ

unfoldable pub ends : Status → List ℕ → Headers
ends st rest = record { result = st; list = []; rest = rest }

-- With memory for so many headers more.
unfoldable pub header_loop : ℕ → List ℕ → Option Headers
unfolding parse_header at_end ends
header_loop zero input =
    some (ends (if at_end input then Status.success else Status.outof_memory) input)
header_loop (suc room) input = elim (at_end input) [
  | true ↦ some (ends Status.success input)
  | false ↦ elim (parse_header input) [
    | none ↦ none
    | some bad_header ↦ some (ends Status.bad_request input)
    | some (parsed h rest) ↦ header_loop room rest >>= λ r. some (record r { list = h ∷ r.list })
  ]
]

-- The end of `parse_headers`, which sets the fields of the message only when it succeeds.
unfoldable pub set_headers : Message → Headers → Option (Status × Message)
set_headers out r = elim r.result [
  | Status.success ↦ some (
    Status.success,
    record out {
      header_list = r.list;
      content = if ltb 1 (length r.rest) then drop 2 r.rest else r.rest;
      content_size = if length r.rest == 0 then pos 0 else pos (length r.rest) -ℤ pos 2;
    },
  )
  | other ↦ some (other, out)
]

unfoldable pub parse_headers : ℕ → List ℕ → Message → Option (Status × Message)
unfolding header_loop set_headers
parse_headers room input out = header_loop room input >>= set_headers out

-- What `parse_http_response` makes of the result of `parse_headers`.
unfoldable pub response_result : Status × Message → Option (Status × Message)
response_result (Status.success, m) = some (Status.success, m)
response_result (other, m) = some (Status.bad_request, m)

unfoldable pub behind_status : ℕ → Message → ℕ × StatusLine → List ℕ → Option (Status × Message)
unfolding parse_headers response_result
behind_status room out (n, status) input =
    if n == 0
    then some (Status.bad_response, record out { status = status })
    else parse_headers room (drop n input) (record out { status = status }) >>= response_result

unfoldable pub parse_http_response : ℕ → List ℕ → Message → Option (Status × Message)
unfolding parse_status_line behind_status
parse_http_response room input out = behind_status room out (parse_status_line input) input

-- The result, with the value found.
unfoldable pub search_for_header : List Header → List ℕ → Option (List ℕ)
unfolding eq_nocase
search_for_header [] name = none
search_for_header (h ∷ l) name =
    if eq_nocase name h.header then some h.value else search_for_header l name
