-- ===== src/Membuffer/Write.antt =====
-- Copies into a block, `memcpy` and `memmove`, for src/genlib/util/membuffer.c.
use upnpsdk.Prelude.{
  ℕ, zero, suc, ◌+◌, ◌≤◌, ◌≡◌, refl, ap, ◌∙◌, some, List, [], ◌∷◌, ◌++◌, arith, length, take, drop,
  get_elem?, length-append, length-take, length-drop, take-append_le, take-append_eq,
  take-append_add, drop-append_eq, take-take,
}
use upnpsdk.Membuffer.{write_at, move_within}

-- The block after a copy of `src` to offset `i`.
unfoldable pub put : ℕ → List ℕ → List ℕ → List ℕ
put i src b = take i b ++ (src ++ drop (i + length src) b)

pub write_at_fits :
    (i : ℕ) (src b : List ℕ)
    → i + length src ≤ length b
    → write_at (some b) i src ≡ some (put i src b)
unfolding write_at put
write_at_fits i src b h = ground arith

pub move_within_fits :
    (dst src n : ℕ) (b : List ℕ)
    → src + n ≤ length b
    → dst + n ≤ length b
    → move_within (some b) dst src n ≡ some (put dst (take n (drop src b)) b)
unfolding move_within write_at put
move_within_fits dst src n b h k = ground (arith, length-take n (drop src b), length-drop src b)

pub length-put :
    (i : ℕ) (src b : List ℕ) → i + length src ≤ length b → length (put i src b) ≡ length b
unfolding put
length-put i src b h = omega (
  arith,
  length-append (take i b) (src ++ drop (i + length src) b),
  length-append src (drop (i + length src) b),
  length-take i b,
  length-drop (i + length src) b,
)

-- Before the copy nothing changes.
pub take-put :
    (k i : ℕ) (src b : List ℕ) → k ≤ i → i + length src ≤ length b → take k (put i src b) ≡ take k b
unfolding put
take-put k i src b h fits =
    take-append_le k (take i b) _ (omega (arith, length-take i b)) ∙ take-take k i b h

-- Up to `k` bytes into what follows the offset.
pub take-put_add :
    (i k : ℕ) (src b : List ℕ)
    → k ≤ length src
    → i + length src ≤ length b
    → take (i + k) (put i src b) ≡ take i b ++ take k src
unfolding put
take-put_add i k src b h fits =
    take-append_add i k (take i b) _ (omega (arith, length-take i b))
    ∙ ap (◌++◌ (take i b)) (take-append_le k src _ h)

pub take-put_zero : (src b : List ℕ) → take (length src) (put 0 src b) ≡ src
unfolding put
take-put_zero src b = take-append_eq (length src) src _ refl

pub drop-put :
    (i : ℕ) (src b : List ℕ)
    → i + length src ≤ length b
    → drop i (put i src b) ≡ src ++ drop (i + length src) b
unfolding put
drop-put i src b fits = drop-append_eq i (take i b) _ (omega (arith, length-take i b))

get_elem?-append :
    (i : ℕ) (xs ys : List ℕ) (c : ℕ) → i ≡ length xs → get_elem? (xs ++ (c ∷ ys)) i ≡ some c
get_elem?-append zero [] ys c h = refl
get_elem?-append (suc i) [] ys c h = absurd (omega arith)
get_elem?-append zero (x ∷ xs) ys c h = absurd (omega arith)
get_elem?-append (suc i) (x ∷ xs) ys c h = get_elem?-append i xs ys c (omega arith)

pub get_elem?-put :
    (i c : ℕ) (b : List ℕ) → i + 1 ≤ length b → get_elem? (put i (c ∷ []) b) i ≡ some c
unfolding put
get_elem?-put i c b h = get_elem?-append i (take i b) _ c (omega (arith, length-take i b))
