-- ===== src/Http/Lines.antt =====
-- What the lexical functions of src/genlib/http_client/http_client.c read from a line or a word that
-- something else follows.
use upnpsdk.Prelude.{
  ℕ, zero, suc, ◌+◌, ◌-◌, ◌≡◌, ◌≢◌, refl, Bool, true, false, not, some, List, [], ◌∷◌, ◌++◌, All,
  arith, length, take, get_elem?, take-append_eq, ◌==◌,
}
use upnpsdk.Prelude.Int.{pos}
use upnpsdk.Http.Text.{
  count_while, is_blank, is_token_char, parse_lws, parse_not_lws, parse_token, parse_http_line,
  strip_end, parse_header_value,
}

-- The loop ends at once.
abbrev pub is_stop : (ℕ → Bool) → List ℕ → Bool
is_stop p [] = true
is_stop p (c ∷ l) = not (p c)

pub count_while-append :
    (p : ℕ → Bool) (xs ys : List ℕ)
    → All (λ c. p c ≡ true) xs
    → is_stop p ys ≡ true
    → count_while p (xs ++ ys) ≡ length xs
unfolding count_while
count_while-append p [] [] h s = refl
count_while-append p [] (c ∷ ys) h s = ground arith
count_while-append p (x ∷ xs) ys h s = ground (arith, count_while-append p xs ys h.1 s)

pub parse_http_line-append :
    (xs rest : List ℕ)
    → All (λ c. c ≢ 13) xs
    → parse_http_line (xs ++ (13 ∷ 10 ∷ rest)) ≡ length xs + 2
unfolding parse_http_line
parse_http_line-append [] rest h = refl
parse_http_line-append (x ∷ []) rest h = ground arith
parse_http_line-append (x ∷ y ∷ xs) rest h =
    ground (arith, parse_http_line-append (y ∷ xs) rest h.1)

get_elem?-at :
    (xs : List ℕ) (c : ℕ) (rest : List ℕ) → get_elem? (xs ++ (c ∷ rest)) (length xs) ≡ some c
get_elem?-at [] c rest = refl
get_elem?-at (x ∷ xs) c rest = get_elem?-at xs c rest

strip_end-stays : (input : List ℕ) (n : ℕ) → get_elem? input n ≡ some 13 → strip_end input n ≡ pos n
unfolding strip_end
strip_end-stays input zero h = rw (strip_end, h) refl
strip_end-stays input (suc n) h = rw (strip_end, h) refl

-- `parse_header_value` on a line without CR takes the whole line for the value: the blanks at its end
-- too, since the loop that is to strip them starts at the CR.
pub parse_header_value-line :
    (value rest : List ℕ)
    → All (λ c. c ≢ 13) value
    → parse_header_value (value ++ (13 ∷ 10 ∷ rest)) ≡ (pos (length value), value)
unfolding parse_header_value
parse_header_value-line value rest h =
    let input = value ++ (13 ∷ 10 ∷ rest) in
    let line : parse_http_line input ≡ length value + 2 = parse_http_line-append value rest h in
    let stays : strip_end input (length value) ≡ pos (length value) =
      strip_end-stays input (length value) (get_elem?-at value 13 (10 ∷ rest)) in
    let whole : take (length value) input ≡ value =
      take-append_eq (length value) value (13 ∷ 10 ∷ rest) refl in
    let n : parse_http_line input - 2 ≡ length value = omega (arith, line) in
    rw (parse_header_value, n, stays, line) (ground (arith, whole))

pub parse_lws-value :
    (value rest : List ℕ)
    → is_stop is_blank value ≡ true
    → parse_lws (32 ∷ (value ++ (13 ∷ 10 ∷ rest))) ≡ 1
unfolding parse_lws count_while
parse_lws-value [] rest h = refl
parse_lws-value (c ∷ value) rest h = ground arith

pub parse_token-name :
    (name rest : List ℕ)
    → All (λ c. is_token_char c ≡ true) name
    → is_stop is_token_char rest ≡ true
    → parse_token (name ++ rest) ≡ (length name, name)
unfolding parse_token
parse_token-name name rest h s =
    rw (count_while-append is_token_char name rest h s, take-append_eq (length name) name rest refl)
      refl

pub length_not_zero : (name : List ℕ) → name ≢ [] → (length name == 0) ≡ false
length_not_zero [] h = absurd (h refl)
length_not_zero (c ∷ name) h = ground arith

pub parse_not_lws-word :
    (word rest : List ℕ)
    → All (λ c. not (is_blank c) ≡ true) word
    → parse_not_lws (word ++ (32 ∷ rest)) ≡ (length word, word)
unfolding parse_not_lws
parse_not_lws-word word rest h =
    rw
      (
        count_while-append (λ c. not (is_blank c)) word (32 ∷ rest) h refl,
        take-append_eq (length word) word (32 ∷ rest) refl,
      )
      refl

pub parse_lws-word :
    (word rest : List ℕ)
    → word ≢ []
    → All (λ c. not (is_blank c) ≡ true) word
    → parse_lws (32 ∷ (word ++ rest)) ≡ 1
unfolding parse_lws count_while
parse_lws-word [] rest ne h = absurd (ne refl)
parse_lws-word (c ∷ word) rest ne h = ground (arith, h.0)
