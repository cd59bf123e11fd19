-- ===== src/Prelude/Search.antt =====
-- The searching functions of the C library on strings: `strstr`, `strcasecmp`, `atoi`.
use upnpsdk.Prelude.{
  ℕ, ◌+◌, ◌-◌, ◌*◌, ◌≡◌, ◌≢◌, refl, Bool, true, false, ◌&&◌, ◌||◌, Option, none, some, List, [],
  ◌∷◌, ◌++◌, arith, if◌then◌else◌, leb, ◌==◌, All,
}
use upnpsdk.Prelude.Int.{ℤ, pos, negsuc}

unfoldable pub starts_with : List ℕ → List ℕ → Bool
starts_with [] s = true
starts_with (c ∷ p) [] = false
starts_with (c ∷ p) (d ∷ s) = c == d && starts_with p s

-- The first occurrence of a text: what stands before it, and the string from it on.
unfoldable pub find_str : List ℕ → List ℕ → Option (List ℕ × List ℕ)
unfolding starts_with
find_str [] needle = if starts_with needle [] then some ([], []) else none
find_str (c ∷ s) needle =
    let rest : Option (List ℕ × List ℕ) = elim (find_str s needle) [
      | none ↦ none
      | some (b, f) ↦ some (c ∷ b, f)
    ] in
    if starts_with needle (c ∷ s) then some ([], c ∷ s) else rest

abbrev pub is_some {ℓ} : {A : Type ℓ} → Option A → Bool
is_some none = false
is_some (some a) = true

-- `strstr(s, needle) != NULL`.
unfoldable pub has : List ℕ → List ℕ → Bool
unfolding find_str
has s needle = is_some (find_str s needle)

pub to_lower : ℕ → ℕ
to_lower c = if leb b'A' c && leb c b'Z' then c + 32 else c

-- `strcasecmp(s, t) == 0`.
unfoldable pub eq_nocase : List ℕ → List ℕ → Bool
unfolding to_lower
eq_nocase [] [] = true
eq_nocase [] (d ∷ t) = false
eq_nocase (c ∷ s) [] = false
eq_nocase (c ∷ s) (d ∷ t) = to_lower c == to_lower d && eq_nocase s t

is_space : ℕ → Bool
is_space c = c == 32 || leb 9 c && leb c 13

is_digit : ℕ → Bool
is_digit c = leb b'0' c && leb c b'9'

digits : ℕ → List ℕ → ℕ
unfolding is_digit
digits acc [] = acc
digits acc (c ∷ s) = let rest = digits (10 * acc + (c - b'0')) s in if is_digit c then rest else acc

negated : ℕ → ℤ
negated n = if n == 0 then pos 0 else negsuc (n - 1)

signed : List ℕ → ℤ
unfolding digits negated
signed [] = pos 0
signed (c ∷ s) =
    if c == b'-'
    then negated (digits 0 s)
    else if c == b'+'
    then pos (digits 0 s)
    else pos (digits 0 (c ∷ s))

-- `atoi` where the number fits an `int`.
unfoldable pub atoi : List ℕ → ℤ
unfolding signed is_space
atoi [] = pos 0
atoi (c ∷ s) = let rest = atoi s in if is_space c then rest else signed (c ∷ s)

-- A text that begins with a byte which the string before it does not hold is found behind that string.
pub find_str-append :
    (s : List ℕ) (d : ℕ) (p r : List ℕ)
    → All (λ c. c ≢ d) s
    → starts_with (d ∷ p) (d ∷ r) ≡ true
    → find_str (s ++ (d ∷ r)) (d ∷ p) ≡ some (s, d ∷ r)
unfolding find_str
find_str-append [] d p r h e = ground arith
find_str-append (c ∷ s) d p r h e = ground (arith, find_str-append s d p r h.1 e)

-- And not in a string that does not hold its first byte.
pub find_str-absent :
    (s : List ℕ) (d : ℕ) (p : List ℕ) → All (λ c. c ≢ d) s → find_str s (d ∷ p) ≡ none
unfolding find_str
find_str-absent [] d p h = refl
find_str-absent (c ∷ s) d p h = ground (arith, find_str-absent s d p h.1)
