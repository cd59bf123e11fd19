-- ===== src/Membuffer/Contents.antt =====
-- `membuffer_assign`, `membuffer_insert`, `membuffer_append` and `membuffer_delete` of
-- src/genlib/util/membuffer.c as operations on the bytes that a buffer holds.
use upnpsdk.Prelude.{
  ℕ, ◌+◌, ◌-◌, ◌^◌, ◌≤◌, ◌<◌, ◌≡◌, refl, sym, ap, ap₂, ◌∙◌, false, Option, none, some, List, [],
  ◌∷◌, ◌++◌, arith, length, take, drop, get_elem?, length-take, length-drop, take-append_eq,
  take-take, take-append_add, drop-take,
}
use upnpsdk.Prelude.Int.{pos, ltb_ℤ, to_int}
use upnpsdk.Codes.{Status}
use upnpsdk.Membuffer.{
  Membuffer, Heap, block, set_size, add_size, sub_size, store, splice, on_success, assign, insert,
  insert_at,
}
use upnpsdk.Membuffer.Size.{HasBlock, IsValid, Sized, sized, refused, set_size-Sizes}
use upnpsdk.Membuffer.Write.{
  put, write_at_fits, move_within_fits, length-put, take-put, take-put_zero, drop-put,
  get_elem?-put,
}

-- The bytes that the buffer holds.
abbrev pub contents : Membuffer → List ℕ
contents m = take m.length (block m.buf)

-- A 0 stands behind them.
abbrev pub IsTerminated : Membuffer → Type 0
IsTerminated m = get_elem? (block m.buf) m.length ≡ some 0

-- A valid buffer that holds the bytes, terminated, with the increment given.
pub record Holds (m : Membuffer) (bytes : List ℕ) (inc : ℕ) : Type 0 where
  pub valid : IsValid m
  pub holds : contents m ≡ bytes
  pub terminated : IsTerminated m
  pub same_inc : m.size_inc ≡ inc

-- The result of a call: success with the bytes, or a failure of both `realloc`s that leaves the
-- buffer as it was.
pub data Result (h : Heap) (m : Membuffer) (bytes : List ℕ) (r : Option (Status × Membuffer))
    : Type 0 where
  done :
      (m' : Membuffer)
      → r ≡ some (Status.success, m')
      → Holds m' bytes m.size_inc
      → Result h m bytes r
  no_memory :
      h.first ≡ false → h.second ≡ false → r ≡ some (Status.outof_memory, m) → Result h m bytes r

-- A buffer whose block is `b`, of which the first `n` bytes are used, once the terminator is written.
pub ended-Holds :
    (m : Membuffer) (b bytes : List ℕ) (n : ℕ)
    → length b ≡ m.capacity + 1
    → n ≤ m.capacity
    → take n b ≡ bytes
    → Holds (record m { buf = some (put n (0 ∷ []) b); length = n }) bytes m.size_inc
ended-Holds m b bytes n size room h = record {
  valid = record { has_block = length-put n (0 ∷ []) b (omega arith) ∙ size; within = room };
  holds = take-put n n (0 ∷ []) b (omega arith) (omega arith) ∙ h;
  terminated = get_elem?-put n 0 b (omega arith);
  same_inc = refl;
}

store-Result :
    (buf : Option (List ℕ)) (m : Membuffer) (src : List ℕ)
    → m.buf ≡ buf
    → HasBlock buf m.capacity
    → length src ≤ m.capacity
    → 0 < length src
    → (m' : Membuffer) × (store src m ≡ some (Status.success, m')) × Holds m' src m.size_inc
unfolding store
store-Result none m src e size room some_bytes = absurd (omega arith)
store-Result (some b) m src e size room some_bytes =
    let copied : List ℕ = put 0 src b in
    let len : length copied ≡ length b = length-put 0 src b (omega arith) in
    (
      record m { buf = some (put (length src) (0 ∷ []) copied); length = length src },
      rw (
        e,
        write_at_fits 0 src b (omega arith),
        write_at_fits (length src) (0 ∷ []) copied (omega arith),
      ),
      ended-Holds m copied src (length src) (omega arith) room (take-put_zero src b),
    )

on_success_done :
    (r : Option (Status × Membuffer)) (m : Membuffer) (f : Membuffer → Option (Status × Membuffer))
    {x : Option (Status × Membuffer)}
    → r ≡ some (Status.success, m)
    → f m ≡ x
    → on_success r f ≡ x
on_success_done r m f e e' = rw e e'

on_success_refused :
    (r : Option (Status × Membuffer)) (m : Membuffer) (f : Membuffer → Option (Status × Membuffer))
    → r ≡ some (Status.outof_memory, m)
    → on_success r f ≡ some (Status.outof_memory, m)
on_success_refused r m f e = rw e

-- On a valid buffer (its block is one byte larger than its capacity, or it has none and the capacity is 0; the length
-- is at most the capacity),
-- `membuffer_assign` of one byte or more, where no sum wraps: the buffer then holds exactly those
-- bytes, terminated, or both calls of `realloc` failed, the result is UPNP_E_OUTOF_MEMORY and the
-- buffer is unchanged.
pub assign-Result :
    (h : Heap) (m : Membuffer) (src : List ℕ)
    → IsValid m
    → 0 < length src
    → m.capacity + m.size_inc + length src + 1 < 2 ^ 32
    → Result h m src (assign h m (some src))
unfolding assign
assign-Result h m src v some_bytes small = elim (set_size-Sizes h m (length src) v small) [
  | refused a b e ↦ no_memory a b (on_success_refused _ m (store src) e)
  | sized m' e z ↦
      let (m'', e', held) = store-Result m'.buf m' src refl z.has_block z.room some_bytes in
      done m'' (on_success_done _ m' (store src) e e') (record {
        valid = held.valid;
        holds = held.holds;
        terminated = held.terminated;
        same_inc = held.same_inc ∙ z.same_inc;
      })
]

-- The block of `membuffer_insert` before the terminator is written.
spliced : ℕ → ℕ → List ℕ → List ℕ → List ℕ
spliced i n src b = put i src (put (i + length src) (take (n - i) (drop i b)) b)

length-spliced :
    (i n : ℕ) (src b : List ℕ)
    → i ≤ n
    → n + length src ≤ length b
    → length (spliced i n src b) ≡ length b
unfolding spliced
length-spliced i n src b h room =
    let tail : length (take (n - i) (drop i b)) ≡ n - i =
      omega (arith, length-take (n - i) (drop i b), length-drop i b) in
    let moved : length (put (i + length src) (take (n - i) (drop i b)) b) ≡ length b =
      length-put (i + length src) (take (n - i) (drop i b)) b (omega arith) in
    length-put i src _ (omega arith) ∙ moved

take-spliced :
    (i n : ℕ) (src b : List ℕ)
    → i ≤ n
    → n + length src ≤ length b
    → take (n + length src) (spliced i n src b) ≡ take i b ++ (src ++ take (n - i) (drop i b))
unfolding spliced put
take-spliced i n src b h room =
    let tail : List ℕ = take (n - i) (drop i b) in
    let size : length tail ≡ n - i =
      omega (arith, length-take (n - i) (drop i b), length-drop i b) in
    let moved : List ℕ = put (i + length src) tail b in
    let rest : List ℕ = drop (i + length src) moved in
    let len : length moved ≡ length b = length-put (i + length src) tail b (omega arith) in
    let sum : n + length src ≡ i + (length src + (n - i)) = omega arith in
    ap (λ k. take k (put i src moved)) sum
    ∙ take-append_add i (length src + (n - i)) (take i moved) (src ++ rest)
        (omega (arith, length-take i moved))
    ∙ ap₂ ◌++◌ (take-put i (i + length src) tail b (omega arith) (omega arith)) (
        take-append_add (length src) (n - i) src rest refl
        ∙ ap (◌++◌ src) (
            ap (take (n - i)) (drop-put (i + length src) tail b (omega arith))
            ∙ take-append_eq (n - i) tail _ (omega arith)))

-- `bytes` with `src` put in before offset `i`.
abbrev pub insert_bytes : ℕ → List ℕ → List ℕ → List ℕ
insert_bytes i src bytes = take i bytes ++ (src ++ drop i bytes)

splice-Result :
    (buf : Option (List ℕ)) (m : Membuffer) (src : List ℕ) (i : ℕ)
    → m.buf ≡ buf
    → HasBlock buf m.capacity
    → i ≤ m.length
    → m.length + length src ≤ m.capacity
    → m.length + length src < 2 ^ 32
    → 0 < length src
    → (m' : Membuffer) × (splice src i m ≡ some (Status.success, m'))
      × Holds m' (insert_bytes i src (contents m)) m.size_inc
unfolding splice spliced
splice-Result none m src i e size at room small some_bytes = absurd (omega arith)
splice-Result (some b) m src i e size at room small some_bytes =
    let n : ℕ = m.length in
    let tail : length (take (n - i) (drop i b)) ≡ n - i =
      omega (arith, length-take (n - i) (drop i b), length-drop i b) in
    let moved : length (put (i + length src) (take (n - i) (drop i b)) b) ≡ length b =
      length-put (i + length src) (take (n - i) (drop i b)) b (omega arith) in
    let ended : length (spliced i n src b) ≡ length b = length-spliced i n src b at (omega arith) in
    let e1 : sub_size n i ≡ n - i = omega arith in
    let e2 : add_size n (length src) ≡ n + length src = omega arith in
    (
      record m {
        buf = some (put (n + length src) (0 ∷ []) (spliced i n src b));
        length = n + length src;
      },
      rw (e, e1, e2, move_within_fits (i + length src) i (n - i) b (omega arith) (omega arith))
          (rw (
            write_at_fits i src (put (i + length src) (take (n - i) (drop i b)) b) (omega arith),
            write_at_fits (n + length src) (0 ∷ []) (spliced i n src b) (omega arith),
          )),
      ended-Holds m (spliced i n src b) (insert_bytes i src (contents m)) (n + length src)
          (omega arith) room
          (take-spliced i n src b at (omega arith)
            ∙ sym (
                ap (λ c. insert_bytes i src (take n (block c))) e
                ∙ ap₂ (λ x y. x ++ (src ++ y)) (take-take i n b at) (drop-take i n b))),
    )

-- `contents` is not touched by a successful `membuffer_set_size` that makes room.
contents-Sized :
    (m : Membuffer) (n : ℕ) (m' : Membuffer)
    → IsValid m
    → Sized m n m'
    → m.length ≤ n
    → contents m' ≡ contents m
contents-Sized m n m' v z h =
    ap (λ k. take k (block m'.buf)) z.same_length ∙ z.kept m.length v.within (omega (arith, z.room))

insert_at-Result :
    (h : Heap) (m : Membuffer) (src : List ℕ) (i : ℕ)
    → IsValid m
    → 0 < length src
    → i ≤ m.length
    → m.capacity + m.size_inc + m.length + length src + 1 < 2 ^ 32
    → Result h m (insert_bytes i src (contents m)) (insert_at h m (some src) i)
unfolding insert_at
insert_at-Result h m [] i v some_bytes at small = absurd (omega arith)
insert_at-Result h m (c ∷ cs) i v some_bytes at small =
    let src : List ℕ = c ∷ cs in
    let e2 : add_size m.length (length src) ≡ m.length + length src = omega arith in
    elim (set_size-Sizes h m (m.length + length src) v (omega arith)) [
      | refused a b e ↦
          no_memory a b (on_success_refused _ m (splice src i) (ap (set_size h m) e2 ∙ e))
      | sized m' e z ↦
          let (m'', e', held) =
            splice-Result m'.buf m' src i refl z.has_block (omega (arith, z.same_length))
              (omega (arith, z.same_length, z.room)) (omega (arith, z.same_length)) some_bytes in
          done m'' (on_success_done _ m' (splice src i) (ap (set_size h m) e2 ∙ e) e') (record {
            valid = held.valid;
            holds =
                held.holds
                ∙ ap (insert_bytes i src)
                    (contents-Sized m (m.length + length src) m' v z (omega arith));
            terminated = held.terminated;
            same_inc = held.same_inc ∙ z.same_inc;
          })
    ]

-- On a valid buffer (its block is one byte larger than its capacity, or it has none and the capacity is 0; the length
-- is at most the capacity),
-- `membuffer_insert` of one byte or more at an offset up to the length, where no sum wraps and the
-- length fits an `int`: the buffer then holds its bytes with the new ones put in at the offset,
-- terminated, or both calls of `realloc` failed, the result is UPNP_E_OUTOF_MEMORY and the buffer is
-- unchanged.
pub insert-Result :
    (h : Heap) (m : Membuffer) (src : List ℕ) (i : ℕ)
    → IsValid m
    → 0 < length src
    → i ≤ m.length
    → m.length < 2 ^ 31
    → m.capacity + m.size_inc + m.length + length src + 1 < 2 ^ 32
    → Result h m (insert_bytes i src (contents m)) (insert h m (some src) (pos i))
unfolding insert
insert-Result h m src i v some_bytes at int small =
    let low : ltb_ℤ (pos i) (pos 0) ≡ false = ground arith in
    let high : ltb_ℤ (to_int m.length) (pos i) ≡ false = ground arith in
    rw (low, high) (insert_at-Result h m src i v some_bytes at small)
