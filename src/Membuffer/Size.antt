-- ===== src/Membuffer/Size.antt =====
-- `membuffer_set_size` of src/genlib/util/membuffer.c: the block that it leaves, and what it keeps.
use upnpsdk.Prelude.{
  ℕ, zero, suc, ◌+◌, ◌-◌, ◌^◌, ◌≤◌, ◌<◌, ◌≡◌, refl, ap, ◌∙◌, inl, inr, false, Option, none, some,
  List, arith, length, take, leb, Bool-cases, length-append, length-take, take-append_le, take-take,
}
use upnpsdk.Codes.{Status}
use upnpsdk.Membuffer.{
  Membuffer, Heap, fill, realloc, block, realloc_to, set_size, add_size, sub_size,
}

length-fill : (fresh : ℕ → ℕ) (i k : ℕ) → length (fill fresh i k) ≡ k
unfolding fill
length-fill fresh i zero = refl
length-fill fresh i (suc k) = ap suc (length-fill fresh (i + 1) k)

pub length-realloc :
    (fresh : ℕ → ℕ) (buf : Option (List ℕ)) (n : ℕ) → length (realloc fresh buf n) ≡ n
unfolding realloc
length-realloc fresh buf n = omega (
  arith,
  length-append (take n (block buf)) (fill fresh (length (block buf)) (n - length (block buf))),
  length-take n (block buf),
  length-fill fresh (length (block buf)) (n - length (block buf)),
)

pub take-realloc :
    (fresh : ℕ → ℕ) (buf : Option (List ℕ)) (n k : ℕ)
    → k ≤ n
    → k ≤ length (block buf)
    → take k (realloc fresh buf n) ≡ take k (block buf)
unfolding realloc
take-realloc fresh buf n k h l =
    take-append_le k (take n (block buf)) _ (omega (arith, length-take n (block buf)))
    ∙ take-take k n (block buf) h

-- A buffer with no block has no capacity; a block has a byte more than the capacity. After
-- `membuffer_attach`, which takes the size of its block for the capacity, this does not hold.
abbrev pub HasBlock : Option (List ℕ) → ℕ → Type 0
HasBlock none capacity = capacity ≡ 0
HasBlock (some b) capacity = length b ≡ capacity + 1

pub record IsValid (m : Membuffer) : Type 0 where
  pub has_block : HasBlock m.buf m.capacity
  pub within : m.length ≤ m.capacity

pub length-block :
    (buf : Option (List ℕ)) (capacity : ℕ) → HasBlock buf capacity → capacity ≤ length (block buf)
length-block none capacity h = omega arith
length-block (some b) capacity h = omega arith

-- The state behind a successful `set_size h m n`.
pub record Sized (m : Membuffer) (n : ℕ) (m' : Membuffer) : Type 0 where
  pub has_block : HasBlock m'.buf m'.capacity
  pub room : n ≤ m'.capacity
  pub stays : m'.buf ≡ none → m.buf ≡ none
  pub same_length : m'.length ≡ m.length
  pub same_inc : m'.size_inc ≡ m.size_inc
  pub kept :
      (k : ℕ) → k ≤ m.capacity → k ≤ m'.capacity → take k (block m'.buf) ≡ take k (block m.buf)

-- What `set_size h m n` returns.
pub data Sizes (h : Heap) (m : Membuffer) (n : ℕ) (r : Option (Status × Membuffer)) : Type 0 where
  sized : (m' : Membuffer) → r ≡ some (Status.success, m') → Sized m n m' → Sizes h m n r
  refused : h.first ≡ false → h.second ≡ false → r ≡ some (Status.outof_memory, m) → Sizes h m n r

regrown :
    (h : Heap) (m : Membuffer) (n alloc_len : ℕ)
    → IsValid m
    → n ≤ alloc_len
    → alloc_len + 1 < 2 ^ 32
    → Sized m n (record m {
      buf = some (realloc h.fresh m.buf (add_size alloc_len 1));
      capacity = alloc_len;
    })
regrown h m n alloc_len v le small = record {
  has_block = length-realloc h.fresh m.buf (add_size alloc_len 1) ∙ omega arith;
  room = le;
  stays = λ e. cc;
  same_length = refl;
  same_inc = refl;
  kept = λ k old new.
      take-realloc h.fresh m.buf (add_size alloc_len 1) k (omega arith)
        (omega (arith, length-block m.buf m.capacity v.has_block));
}

realloc_to-Sizes :
    (h : Heap) (m : Membuffer) (n alloc_len : ℕ)
    → IsValid m
    → n ≤ alloc_len
    → alloc_len + 1 < 2 ^ 32
    → Sizes h m n (realloc_to h m n alloc_len)
unfolding realloc_to
realloc_to-Sizes h m n alloc_len v le small = elim (Bool-cases h.first) [
  | inl one ↦ sized _ (ground arith) (regrown h m n alloc_len v le small)
  | inr no_first ↦ elim (Bool-cases h.second) [
    | inl two ↦ sized _ (ground arith) (regrown h m n n v (omega arith) (omega arith))
    | inr no_second ↦ refused no_first no_second (ground arith)
  ]
]

unchanged : (m : Membuffer) (n : ℕ) → IsValid m → n ≤ m.capacity → Sized m n m
unchanged m n v le = record {
  has_block = v.has_block;
  room = le;
  stays = λ e. e;
  same_length = refl;
  same_inc = refl;
  kept = λ k old new. refl;
}

-- On a valid buffer, where none of the sums wraps, `membuffer_set_size` fails no assertion. It either
-- succeeds, with room for the new length, the length field kept and every byte kept that both blocks
-- have, or both calls of `realloc` failed and it changes nothing.
pub set_size-Sizes :
    (h : Heap) (m : Membuffer) (n : ℕ)
    → IsValid m
    → m.capacity + m.size_inc + n + 1 < 2 ^ 32
    → Sizes h m n (set_size h m n)
unfolding set_size
set_size-Sizes h m n v small = elim (Bool-cases (leb m.length n)) [
  | inl longer ↦ elim (Bool-cases (leb n m.capacity)) [
    | inl fits ↦ sized m (ground arith) (unchanged m n v (ground arith))
    | inr grows ↦ rw (longer, grows) (realloc_to-Sizes h m n _ v (ground arith) (ground arith))
  ]
  | inr shorter ↦ elim (Bool-cases (leb (sub_size m.capacity n) m.size_inc)) [
    | inl keeps ↦ sized m (ground arith) (unchanged m n v (ground arith))
    | inr trims ↦ rw (shorter, trims) (realloc_to-Sizes h m n _ v (ground arith) (ground arith))
  ]
]
