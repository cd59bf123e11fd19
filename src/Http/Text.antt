-- ===== src/Http/Text.antt =====
-- The lexical functions of src/genlib/http_client/http_client.c.
use upnpsdk.Prelude.{
  ℕ, zero, suc, ◌+◌, ◌-◌, Bool, not, ◌&&◌, ◌||◌, none, some, List, [], ◌∷◌, if◌then◌else◌, ltb,
  ◌==◌, take, get_elem?, bytes,
}
use upnpsdk.Prelude.Int.{ℤ, pos, negsuc}

-- How many elements a loop passes that goes on while the test holds.
unfoldable pub count_while : (ℕ → Bool) → List ℕ → ℕ
count_while p [] = 0
count_while p (c ∷ l) = let n = count_while p l in if p c then n + 1 else 0

-- A space or TAB.
abbrev pub is_blank : ℕ → Bool
is_blank c = c == 32 || c == 9

-- `strchr(s, c) != NULL`, which the terminator fits too.
unfoldable pub in_set : List ℕ → ℕ → Bool
in_set [] c = c == 0
in_set (d ∷ s) c = c == d || in_set s c

abbrev pub separators : List ℕ
separators = bytes "()<>@,;:\\\"/[]?={} \t"

-- The test in the loop of `parse_token`.
unfoldable pub is_token_char : ℕ → Bool
unfolding in_set
is_token_char c = ltb 31 c && ltb c 128 && not (in_set separators c) && not (c == 127)

unfoldable pub parse_lws : List ℕ → ℕ
unfolding count_while
parse_lws input = count_while is_blank input

-- The result, and the token.
unfoldable pub parse_not_lws : List ℕ → ℕ × List ℕ
unfolding count_while
parse_not_lws input = let n = count_while (λ c. not (is_blank c)) input in (n, take n input)

unfoldable pub parse_token : List ℕ → ℕ × List ℕ
unfolding count_while is_token_char
parse_token input = let n = count_while is_token_char input in (n, take n input)

-- The length of the first line, with its CR LF; 0 if there is none.
unfoldable pub parse_http_line : List ℕ → ℕ
parse_http_line [] = 0
parse_http_line (c ∷ []) = 0
parse_http_line (c ∷ d ∷ l) =
    let n = parse_http_line (d ∷ l) in if c == 13 && d == 10 then 2 else if n == 0 then 0 else n + 1

-- The loop that strips blanks, from the offset on and downwards: `counter` behind it.
unfoldable pub strip_end : List ℕ → ℕ → ℤ
strip_end input zero = elim (get_elem? input 0) [
  | none ↦ pos 0
  | some c ↦ if is_blank c then negsuc 0 else pos 0
]
strip_end input (suc n) =
    let rest = strip_end input n in
    elim (get_elem? input (suc n)) [
      | none ↦ pos (suc n)
      | some c ↦ if is_blank c then rest else pos (suc n)
    ]

-- The result, and the token. A token of negative size is empty here.
unfoldable pub parse_header_value : List ℕ → ℤ × List ℕ
unfolding strip_end parse_http_line
parse_header_value input =
    let n = parse_http_line input in
    let counter = strip_end input (n - 2) in
    if n == 0 then (pos 0, []) else (counter, elim counter [ pos k ↦ take k input | negsuc k ↦ [] ])
