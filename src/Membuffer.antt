-- ===== src/Membuffer.antt =====
-- src/genlib/util/membuffer.c: byte buffers that grow. `size_t` and `int` have 32 bits. A function
-- that updates `*m` returns the new buffer behind its result code; `none` is a failed assertion or an
-- access outside the allocated block. The source bytes of a call do not alias the buffer.
mod Tests
pub mod Faults
pub mod Delete
pub mod Contents
pub mod Write
pub mod Size
use upnpsdk.Prelude.{
  ℕ, zero, suc, ◌+◌, ◌-◌, ◌%◌, ◌^◌, max, Bool, true, false, not, ◌&&◌, ◌||◌, Option, none, some,
  List, [], ◌∷◌, ◌++◌, if◌then◌else◌, leb, ltb, ◌==◌, ◌>>=◌, take, drop, length,
}
use upnpsdk.Prelude.Int.{ℤ, pos, negsuc, pos_part, ltb_ℤ, to_int}
use upnpsdk.Codes.{Status}

-- `membuffer`. The block behind `buf` has `capacity + 1` bytes; `none` is NULL.
pub record Membuffer : Type 0 where
  pub buf : Option (List ℕ)
  pub length : ℕ
  pub capacity : ℕ
  pub size_inc : ℕ

-- What the heap answers during one call: whether the first and the second `realloc` succeed, and the
-- bytes found in fresh memory.
pub record Heap : Type 0 where
  pub first : Bool
  pub second : Bool
  pub fresh : ℕ → ℕ

-- Sums and differences of `size_t`.
abbrev pub add_size : ℕ → ℕ → ℕ
add_size a b = (a + b) % 2 ^ 32

abbrev pub sub_size : ℕ → ℕ → ℕ
sub_size a b = (a + 2 ^ 32 - b) % 2 ^ 32

-- `k` fresh bytes from offset `i` on.
pub fill : (ℕ → ℕ) → ℕ → ℕ → List ℕ
fill fresh i zero = []
fill fresh i (suc k) = fresh i ∷ fill fresh (i + 1) k

abbrev pub block : Option (List ℕ) → List ℕ
block none = []
block (some b) = b

-- The block that a successful `realloc` of `n` bytes returns.
pub realloc : (ℕ → ℕ) → Option (List ℕ) → ℕ → List ℕ
unfolding fill
realloc fresh buf n = take n (block buf) ++ fill fresh (length (block buf)) (n - length (block buf))

-- `memcpy(b + i, src, length src)`.
pub write_at : Option (List ℕ) → ℕ → List ℕ → Option (List ℕ)
write_at none i src = none
write_at (some b) i src =
    if leb (i + length src) (length b)
    then some (take i b ++ (src ++ drop (i + length src) b))
    else none

-- `memmove(b + dst, b + src, n)`.
pub move_within : Option (List ℕ) → ℕ → ℕ → ℕ → Option (List ℕ)
unfolding write_at
move_within none dst src n = none
move_within (some b) dst src n =
    if leb (src + n) (length b) then write_at (some b) dst (take n (drop src b)) else none

initialize : Membuffer → Membuffer
initialize m = record m { buf = none; length = 0; capacity = 0 }

abbrev pub def_size_inc : ℕ
def_size_inc = 5

pub init : Membuffer → Membuffer
unfolding initialize
init m = initialize (record m { size_inc = def_size_inc })

pub destroy : Membuffer → Membuffer
unfolding init
destroy m = init m

-- From the assertion `alloc_len >= new_length` on.
pub realloc_to : Heap → Membuffer → ℕ → ℕ → Option (Status × Membuffer)
unfolding realloc
realloc_to h m new_length alloc_len =
    if not (leb new_length alloc_len)
    then none
    else if h.first
    then some (
      Status.success,
      record m { buf = some (realloc h.fresh m.buf (add_size alloc_len 1)); capacity = alloc_len },
    )
    else if h.second
    then some (
      Status.success,
      record m {
        buf = some (realloc h.fresh m.buf (add_size new_length 1));
        capacity = new_length;
      },
    )
    else some (Status.outof_memory, m)

pub set_size : Heap → Membuffer → ℕ → Option (Status × Membuffer)
set_size h m new_length =
    if leb m.length new_length
    then if leb new_length m.capacity
      then some (Status.success, m)
      else realloc_to h m new_length
          (add_size (max m.size_inc (sub_size new_length m.length)) m.capacity)
    else if leb (sub_size m.capacity new_length) m.size_inc
    then some (Status.success, m)
    else realloc_to h m new_length (add_size new_length m.size_inc)

-- Goes on after `membuffer_set_size`, or returns its error.
abbrev pub on_success :
    Option (Status × Membuffer)
    → (Membuffer → Option (Status × Membuffer))
    → Option (Status × Membuffer)
on_success r f = r >>= λ (st, m). elim st [ Status.success ↦ f m | other ↦ some (other, m) ]

-- The copy and the terminator of `membuffer_assign`.
store : List ℕ → Membuffer → Option (Status × Membuffer)
store src m = do
  copied ← write_at m.buf 0 src
  ended ← write_at (some copied) (length src) (0 ∷ [])
  some (Status.success, record m { buf = some ended; length = length src })

-- The bytes are those from `buf` on, `buf_len` of them; `none` is a NULL `buf`.
pub assign : Heap → Membuffer → Option (List ℕ) → Option (Status × Membuffer)
unfolding store
assign h m none = some (Status.success, destroy m)
assign h m (some src) = on_success (set_size h m (length src)) (store src)

-- The moves of `membuffer_insert` at a valid index.
splice : List ℕ → ℕ → Membuffer → Option (Status × Membuffer)
splice src i m = do
  moved ← move_within m.buf (i + length src) i (sub_size m.length i)
  copied ← write_at (some moved) i src
  let len = add_size m.length (length src)
  ended ← write_at (some copied) len (0 ∷ [])
  some (Status.success, record m { buf = some ended; length = len })

insert_at : Heap → Membuffer → Option (List ℕ) → ℕ → Option (Status × Membuffer)
unfolding splice
insert_at h m none i = some (Status.success, m)
insert_at h m (some []) i = some (Status.success, m)
insert_at h m (some (c ∷ cs)) i =
    on_success (set_size h m (add_size m.length (length (c ∷ cs)))) (splice (c ∷ cs) i)

pub insert : Heap → Membuffer → Option (List ℕ) → ℤ → Option (Status × Membuffer)
unfolding insert_at
insert h m src index =
    if ltb_ℤ index (pos 0) || ltb_ℤ (to_int m.length) index
    then some (Status.outof_bounds, m)
    else insert_at h m src (pos_part index)

-- `m->length` is passed as an `int`.
pub append : Heap → Membuffer → Option (List ℕ) → Option (Status × Membuffer)
append h m src = insert h m src (to_int m.length)

-- `membuffer_delete` from the move on, with the number of bytes cut to those that are there.
delete_at : Heap → Membuffer → ℕ → ℕ → ℕ → Option Membuffer
delete_at h m i num_bytes copy_len = do
  moved ← move_within m.buf i (i + num_bytes) copy_len
  let new_length = sub_size m.length num_bytes
  trimmed ← set_size h (record m { buf = some moved }) new_length
  let (st, m') = trimmed
  ended ← elim st [ Status.success ↦ write_at m'.buf new_length (0 ∷ []) | _ ↦ none ]
  some (record m' { buf = some ended; length = new_length })

pub delete : Heap → Membuffer → ℤ → ℕ → Option Membuffer
delete h m index num_bytes =
    if m.length == 0
    then some m
    else if ltb_ℤ index (pos 0) || not (ltb_ℤ index (to_int m.length))
    then none
    else if ltb m.length (add_size (pos_part index) num_bytes)
    then delete_at h m (pos_part index) (sub_size m.length (pos_part index)) 0
    else delete_at h m (pos_part index) num_bytes
        (sub_size m.length (add_size (pos_part index) num_bytes))

pub detach : Membuffer → Option (List ℕ) × Membuffer
unfolding initialize
detach m = (m.buf, initialize m)

pub attach : Membuffer → Option (List ℕ) → ℕ → Membuffer
unfolding destroy
attach m new_buf buf_len = record (destroy m) {
  buf = new_buf;
  length = buf_len;
  capacity = buf_len;
}
