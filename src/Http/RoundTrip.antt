-- ===== src/Http/RoundTrip.antt =====
-- What src/genlib/http_client/http_client.c reads from a message that was put together from its parts.
use upnpsdk.Prelude.{
  ℕ, Bool, suc, ◌+◌, ◌-◌, ◌≡◌, ◌≢◌, refl, ap, ◌∙◌, true, false, not, Option, some, List, [], ◌∷◌,
  ◌++◌, All, arith, if◌then◌else◌, length, length-append, drop, append_assoc, drop-append_eq,
  take-append_eq, ◌==◌, ◌>>=◌,
}
use upnpsdk.Prelude.Int.{pos, ◌-ℤ◌}
use upnpsdk.Codes.{Status}
use upnpsdk.Http.Text.{is_blank, is_token_char, parse_token, parse_http_line, parse_header_value}
use upnpsdk.Http.Message.{
  StatusLine, Header, Message, Headers, parse_status_line, at_end, parse_header, header_loop,
  parse_headers, parse_http_response, behind_status, response_result, set_headers, reason,
  behind_code, behind_version, header_value, behind_value, behind_name, ends, parsed, bad_header,
}
use upnpsdk.Http.Lines.{
  is_stop, parse_http_line-append, parse_header_value-line, parse_lws-value, parse_token-name,
  length_not_zero, parse_not_lws-word, parse_lws-word,
}

-- The text of the headers, the empty line and what follows it.
pub header_text : List Header → List ℕ → List ℕ
header_text [] body = 13 ∷ 10 ∷ body
header_text (h ∷ hs) body = h.header ++ (58 ∷ 32 ∷ (h.value ++ (13 ∷ 10 ∷ header_text hs body)))

abbrev pub ends_without_blank : List ℕ → Bool
ends_without_blank [] = true
ends_without_blank (c ∷ []) = not (is_blank c)
ends_without_blank (c ∷ d ∷ l) = ends_without_blank (d ∷ l)

-- A header that can be put into a message: the name is a token of one character or more, the value
-- holds no CR and neither begins nor ends with a blank.
pub record IsPlain (h : Header) : Type 0 where
  pub has_name : h.header ≢ []
  pub is_name : All (λ c. is_token_char c ≡ true) h.header
  pub no_cr : All (λ c. c ≢ 13) h.value
  pub no_blank : is_stop is_blank h.value ≡ true
  pub no_blank_end : ends_without_blank h.value ≡ true

pub header_value-line :
    (name value rest : List ℕ)
    → All (λ c. c ≢ 13) value
    → is_stop is_blank value ≡ true
    → header_value name (32 ∷ (value ++ (13 ∷ 10 ∷ rest)))
      ≡ some (parsed (record { header = name; value = value }) rest)
unfolding header_value behind_value parse_http_line
header_value-line name value rest h b =
    ap
      (λ k.
        behind_value name (drop k (32 ∷ (value ++ (13 ∷ 10 ∷ rest))))
          (parse_header_value (drop k (32 ∷ (value ++ (13 ∷ 10 ∷ rest))))))
      (parse_lws-value value rest b)
    ∙ ap (behind_value name (value ++ (13 ∷ 10 ∷ rest))) (parse_header_value-line value rest h)
    ∙ ap (λ l. some (parsed (record { header = name; value = value }) (drop (parse_http_line l) l)))
        (drop-append_eq (length value) value (13 ∷ 10 ∷ rest) refl)

parse_header-line :
    (h : Header) (rest : List ℕ)
    → IsPlain h
    → parse_header (h.header ++ (58 ∷ 32 ∷ (h.value ++ (13 ∷ 10 ∷ rest)))) ≡ some (parsed h rest)
unfolding parse_header behind_name is_token_char
parse_header-line h rest p =
    let behind = 58 ∷ 32 ∷ (h.value ++ (13 ∷ 10 ∷ rest)) in
    let name : parse_token (h.header ++ behind) ≡ (length h.header, h.header) =
      parse_token-name h.header behind p.is_name refl in
    let left : drop (length h.header) (h.header ++ behind) ≡ behind =
      drop-append_eq (length h.header) h.header behind refl in
    ap (λ r. if r.0 == 0 then some bad_header else behind_name r.1 (drop r.0 (h.header ++ behind)))
      name
    ∙ rw (length_not_zero h.header p.has_name, left)
        (header_value-line h.header h.value rest p.no_cr p.no_blank)

token_char_not_cr : (c : ℕ) → is_token_char c ≡ true → (c == 13) ≡ false
unfolding is_token_char
token_char_not_cr c h = ground arith

pub at_end-line :
    (name more : List ℕ) (c : ℕ)
    → name ≢ []
    → All (λ c. is_token_char c ≡ true) name
    → at_end (name ++ (c ∷ more)) ≡ false
unfolding at_end
at_end-line [] more c ne h = absurd (ne refl)
at_end-line (x ∷ []) more c ne h = rw (token_char_not_cr x h.0) refl
at_end-line (x ∷ y ∷ name) more c ne h = rw (token_char_not_cr x h.0) refl

abbrev consed : Header → Option Headers → Option Headers
consed h o = o >>= λ r. some (record r { list = h ∷ r.list })

header_loop_step :
    (room : ℕ) (input rest : List ℕ) (h : Header)
    → at_end input ≡ false
    → parse_header input ≡ some (parsed h rest)
    → header_loop (suc room) input ≡ consed h (header_loop room rest)
unfolding header_loop
header_loop_step room input rest h e p = rw (header_loop, e, p) refl

header_loop-text :
    (hs : List Header) (body : List ℕ)
    → All IsPlain hs
    → header_loop (length hs) (header_text hs body)
      ≡ some (record { result = Status.success; list = hs; rest = 13 ∷ 10 ∷ body })
unfolding header_loop header_text ends at_end
header_loop-text [] body h = refl
header_loop-text (x ∷ hs) body h =
    header_loop_step (length hs) (header_text (x ∷ hs) body) (header_text hs body) x
      (at_end-line x.header (32 ∷ (x.value ++ (13 ∷ 10 ∷ header_text hs body))) 58 h.0.has_name
        h.0.is_name)
      (parse_header-line x (header_text hs body) h.0)
    ∙ ap (consed x) (header_loop-text hs body h.1)

-- The status line, in front of the rest.
pub status_text : StatusLine → List ℕ → List ℕ
status_text s rest =
    s.http_version ++ (32 ∷ (s.status_code ++ (32 ∷ (s.reason_phrase ++ (13 ∷ 10 ∷ rest)))))

-- A status line that can be put into a message: version and code are not empty and without blanks, the
-- phrase holds no CR and does not begin with a blank.
pub record IsPlainStatus (s : StatusLine) : Type 0 where
  pub has_version : s.http_version ≢ []
  pub version_word : All (λ c. not (is_blank c) ≡ true) s.http_version
  pub has_code : s.status_code ≢ []
  pub code_word : All (λ c. not (is_blank c) ≡ true) s.status_code
  pub no_cr : All (λ c. c ≢ 13) s.reason_phrase
  pub no_blank : is_stop is_blank s.reason_phrase ≡ true

reason-line :
    (out : StatusLine) (size : ℕ) (phrase rest : List ℕ)
    → All (λ c. c ≢ 13) phrase
    → reason out size (phrase ++ (13 ∷ 10 ∷ rest))
      ≡ (size + (length phrase + 2), record out { reason_phrase = phrase })
unfolding reason
reason-line out size phrase rest h =
    let input = phrase ++ (13 ∷ 10 ∷ rest) in
    let line : parse_http_line input ≡ length phrase + 2 = parse_http_line-append phrase rest h in
    let n : length phrase + 2 - 2 ≡ length phrase = omega arith in
    let some_line : (length phrase + 2 == 0) ≡ false = ground arith in
    rw (line, some_line, n, take-append_eq (length phrase) phrase (13 ∷ 10 ∷ rest) refl) refl

behind_code-line :
    (out : StatusLine) (size : ℕ) (code phrase rest : List ℕ)
    → code ≢ []
    → All (λ c. c ≢ 13) phrase
    → is_stop is_blank phrase ≡ true
    → behind_code out size (length code, code) (code ++ (32 ∷ (phrase ++ (13 ∷ 10 ∷ rest)))) ≡ (
      size + length code + 1 + (length phrase + 2),
      record out { status_code = code; reason_phrase = phrase },
    )
unfolding behind_code
behind_code-line out size code phrase rest ne h b =
    rw
      (
        drop-append_eq (length code) code (32 ∷ (phrase ++ (13 ∷ 10 ∷ rest))) refl,
        length_not_zero code ne,
        parse_lws-value phrase rest b,
      )
      (reason-line (record out { status_code = code }) (size + length code + 1) phrase rest h)

length-status_text :
    (s : StatusLine)
    → length s.http_version + 1 + length s.status_code + 1 + (length s.reason_phrase + 2)
      ≡ length (status_text s [])
unfolding status_text
length-status_text s = grind (
  arith,
  length-append s.http_version (32 ∷ (s.status_code ++ (32 ∷ (s.reason_phrase ++ (13 ∷ 10 ∷ []))))),
  length-append s.status_code (32 ∷ (s.reason_phrase ++ (13 ∷ 10 ∷ []))),
  length-append s.reason_phrase (13 ∷ 10 ∷ []),
)

parse_status_line-text :
    (s : StatusLine) (rest : List ℕ)
    → IsPlainStatus s
    → parse_status_line (status_text s rest) ≡ (length (status_text s []), s)
unfolding parse_status_line status_text behind_version
parse_status_line-text s rest p =
    let last = 32 ∷ (s.reason_phrase ++ (13 ∷ 10 ∷ rest)) in
    let behind = s.status_code ++ last in
    ap (λ r. behind_version r (s.http_version ++ (32 ∷ behind)))
      (parse_not_lws-word s.http_version behind p.version_word)
    ∙ rw
        (
          drop-append_eq (length s.http_version) s.http_version (32 ∷ behind) refl,
          length_not_zero s.http_version p.has_version,
          parse_lws-word s.status_code last p.has_code p.code_word,
          parse_not_lws-word s.status_code (s.reason_phrase ++ (13 ∷ 10 ∷ rest)) p.code_word,
          behind_code-line (record s { status_code = []; reason_phrase = [] })
              (length s.http_version + 1) s.status_code s.reason_phrase rest p.has_code p.no_cr
              p.no_blank,
        )
        (ap (λ n. (n, s)) (length-status_text s))

status_text-append :
    (s : StatusLine) (rest : List ℕ) → status_text s rest ≡ status_text s [] ++ rest
unfolding status_text
status_text-append s rest = rw (append_assoc, append_assoc, append_assoc) refl

pub parse_headers-text :
    (hs : List Header) (body : List ℕ) (out : Message)
    → All IsPlain hs
    → parse_headers (length hs) (header_text hs body) out
      ≡ some (
        Status.success,
        record out { header_list = hs; content = body; content_size = pos (length body) },
      )
unfolding parse_headers set_headers ◌-ℤ◌
parse_headers-text hs body out h =
    ap (λ o. o >>= set_headers out) (header_loop-text hs body h) ∙ ground arith

-- A response put together from a status line (version and code are words, the phrase has no CR and begins
-- with no blank), headers (names are tokens, values have no CR and neither begin nor end with a
-- blank), an empty line and a body: with
-- memory for the headers `parse_http_response` succeeds and gives back the status line, the headers in
-- their order, the body and its size.
pub parse_http_response-text :
    (s : StatusLine) (hs : List Header) (body : List ℕ) (out : Message)
    → IsPlainStatus s
    → All IsPlain hs
    → parse_http_response (length hs) (status_text s (header_text hs body)) out
      ≡ some (
        Status.success,
        record out {
          status = s;
          header_list = hs;
          content = body;
          content_size = pos (length body);
        },
      )
unfolding parse_http_response behind_status response_result
parse_http_response-text s hs body out p h =
    let rest = header_text hs body in
    let behind : drop (length (status_text s [])) (status_text s rest) ≡ rest =
      ap (drop (length (status_text s []))) (status_text-append s rest)
      ∙ drop-append_eq (length (status_text s [])) (status_text s []) rest refl in
    let not_empty : (length (status_text s []) == 0) ≡ false =
      grind (arith, length-status_text s) in
    ap (λ r. behind_status (length hs) out r (status_text s rest)) (parse_status_line-text s rest p)
    ∙ rw (not_empty, behind, parse_headers-text hs body (record out { status = s }) h) refl
