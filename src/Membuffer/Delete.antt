-- ===== src/Membuffer/Delete.antt =====
-- `membuffer_append` and `membuffer_delete` of src/genlib/util/membuffer.c.
use upnpsdk.Prelude.{
  ℕ, zero, suc, ◌+◌, ◌-◌, ◌^◌, ◌≤◌, ◌<◌, ◌≡◌, refl, sym, subst, ap, ap₂, ◌∙◌, inl, inr, true, false,
  ◌||◌, Option, none, some, List, [], ◌∷◌, ◌++◌, arith, length, take, drop, ltb, ◌==◌, Bool-cases,
  length-take, length-drop, take-take, take_all, append-nil, drop-take,
}
use upnpsdk.Prelude.Int.{pos, ltb_ℤ, to_int}
use upnpsdk.Codes.{Status}
use upnpsdk.Membuffer.{
  Membuffer, Heap, block, set_size, add_size, sub_size, write_at, move_within, append, delete,
  delete_at,
}
use upnpsdk.Membuffer.Size.{HasBlock, IsValid, Sized, sized, refused, set_size-Sizes}
use upnpsdk.Membuffer.Write.{put, write_at_fits, move_within_fits, length-put, take-put_add}
use upnpsdk.Membuffer.Contents.{contents, Holds, Result, insert-Result, insert_bytes, ended-Holds}

drop_all : (n : ℕ) (xs : List ℕ) → length xs ≤ n → drop n xs ≡ []
drop_all zero [] h = refl
drop_all zero (x ∷ xs) h = absurd (omega arith)
drop_all (suc n) [] h = refl
drop_all (suc n) (x ∷ xs) h = drop_all n xs (omega arith)

insert_bytes_end : (n : ℕ) (src xs : List ℕ) → length xs ≤ n → insert_bytes n src xs ≡ xs ++ src
insert_bytes_end n src xs h =
    ap₂ (λ x y. x ++ (src ++ y)) (take_all n xs h) (drop_all n xs h) ∙ ap (◌++◌ xs) (append-nil src)

-- `membuffer_append` of one byte or more puts the bytes behind those of the buffer, under the
-- conditions of `membuffer_insert` and with its failure.
pub append-Result :
    (h : Heap) (m : Membuffer) (src : List ℕ)
    → IsValid m
    → 0 < length src
    → m.length < 2 ^ 31
    → m.capacity + m.size_inc + m.length + length src + 1 < 2 ^ 32
    → Result h m (contents m ++ src) (append h m (some src))
unfolding append
append-Result h m src v some_bytes int small =
    let index : to_int m.length ≡ pos m.length = ground arith in
    let same : insert_bytes m.length src (contents m) ≡ contents m ++ src =
      insert_bytes_end m.length src (contents m)
        (omega (arith, length-take m.length (block m.buf))) in
    rw (index, ← same) (insert-Result h m src m.length v some_bytes (omega arith) int small)

-- `bytes` without the `num` bytes from offset `i` on.
abbrev pub delete_bytes : ℕ → ℕ → List ℕ → List ℕ
delete_bytes i num bytes = take i bytes ++ drop (i + num) bytes

-- What a deletion leaves: the buffer with those bytes.
abbrev pub Leaves : Membuffer → List ℕ → Option Membuffer → Type 0
Leaves m bytes r = (m' : Membuffer) × (r ≡ some m') × Holds m' bytes m.size_inc

trimmed-Holds :
    (buf : Option (List ℕ)) (m : Membuffer) (b : List ℕ) (n : ℕ) (m' : Membuffer)
    → m'.buf ≡ buf
    → 0 < m.capacity
    → Sized (record m { buf = some b }) n m'
    → n ≤ m.capacity
    → (b' : List ℕ) × (write_at m'.buf n (0 ∷ []) ≡ some b')
      × Holds (record m' { buf = some b'; length = n }) (take n b) m.size_inc
trimmed-Holds none m b n m' e some_room z h = absurd (not_null (z.stays e))
  where
    not_null : some b ≡ none → ⊥
    not_null p = cc
trimmed-Holds (some c) m b n m' e some_room z h =
    let size : length c ≡ m'.capacity + 1 = subst (λ x. HasBlock x m'.capacity) e z.has_block in
    let same : take n c ≡ take n b = ap (λ x. take n (block x)) (sym e) ∙ z.kept n h z.room in
    let held : Holds (record m' { buf = some (put n (0 ∷ []) c); length = n }) (take n b)
        m'.size_inc =
      ended-Holds m' c (take n b) n size z.room same in
    (
      put n (0 ∷ []) c,
      rw e (write_at_fits n (0 ∷ []) c (omega (arith, z.room))),
      record {
        valid = held.valid;
        holds = held.holds;
        terminated = held.terminated;
        same_inc = z.same_inc;
      },
    )

delete_at_steps :
    (h : Heap) (m m' : Membuffer) (i num copy n : ℕ) (moved b' : List ℕ)
    → move_within m.buf i (i + num) copy ≡ some moved
    → sub_size m.length num ≡ n
    → set_size h (record m { buf = some moved }) n ≡ some (Status.success, m')
    → write_at m'.buf n (0 ∷ []) ≡ some b'
    → delete_at h m i num copy ≡ some (record m' { buf = some b'; length = n })
unfolding delete_at
delete_at_steps h m m' i num copy n moved b' p q r s = simp (p, q, r, s)

-- The bytes in front of the terminator.
deleted_bytes :
    (n i num copy : ℕ) (b : List ℕ)
    → i + num + copy ≡ n
    → n ≤ length b
    → take (i + copy) (put i (take copy (drop (i + num) b)) b) ≡ delete_bytes i num (take n b)
deleted_bytes n i num copy b total room =
    let tail : List ℕ = take copy (drop (i + num) b) in
    let size : length tail ≡ copy =
      omega (arith, length-take copy (drop (i + num) b), length-drop (i + num) b) in
    take-put_add i copy tail b (omega arith) (omega arith)
    ∙ ap₂ ◌++◌ (sym (take-take i n b (omega arith))) (
        take_all copy tail (omega arith)
        ∙ ap (λ k. take k (drop (i + num) b)) (omega arith)
        ∙ sym (drop-take (i + num) n b))

deleted-Leaves :
    (h : Heap) (buf : Option (List ℕ)) (m : Membuffer) (i num copy : ℕ)
    → m.buf ≡ buf
    → IsValid m
    → (h.first || h.second) ≡ true
    → 0 < m.length
    → i + num + copy ≡ m.length
    → m.capacity + m.size_inc + m.length + 1 < 2 ^ 32
    → Leaves m (delete_bytes i num (contents m)) (delete_at h m i num copy)
unfolding delete_at
deleted-Leaves h none m i num copy e v mem some_bytes total small =
    absurd (omega (arith, subst (λ x. HasBlock x m.capacity) e v.has_block, v.within))
deleted-Leaves h (some b) m i num copy e v mem some_bytes total small =
    let size : length b ≡ m.capacity + 1 = subst (λ x. HasBlock x m.capacity) e v.has_block in
    let tail : List ℕ = take copy (drop (i + num) b) in
    let tail_length : length tail ≡ copy =
      omega (arith, length-take copy (drop (i + num) b), length-drop (i + num) b, v.within) in
    let moved : List ℕ = put i tail b in
    let fits : i + length tail ≤ length b = omega (arith, v.within) in
    let m1 : Membuffer = record m { buf = some moved } in
    let valid : IsValid m1 = record {
      has_block = length-put i tail b fits ∙ size;
      within = v.within;
    } in
    let n : sub_size m.length num ≡ i + copy = omega (arith, v.within) in
    elim (set_size-Sizes h m1 (i + copy) valid (omega (arith, v.within))) [
      | refused no_first no_second _ ↦ absurd (ground arith)
      | sized m' e' z ↦
          let (b', wrote, held) =
            trimmed-Holds m'.buf m moved (i + copy) m' refl (omega (arith, v.within)) z
              (omega (arith, v.within)) in
          (
            record m' { buf = some b'; length = i + copy },
            delete_at_steps h m m' i num copy (i + copy) moved b'
                (ap (λ x. move_within x i (i + num) copy) e
                  ∙ move_within_fits i (i + num) copy b (omega (arith, v.within))
                      (omega (arith, v.within)))
                n e' wrote,
            record {
              valid = held.valid;
              holds =
                  held.holds
                  ∙ deleted_bytes m.length i num copy b total (omega (arith, v.within))
                  ∙ ap (λ x. delete_bytes i num (take m.length (block x))) (sym e);
              terminated = held.terminated;
              same_inc = held.same_inc;
            },
          )
    ]

delete_bytes_past :
    (i num num' : ℕ) (xs : List ℕ)
    → length xs ≤ i + num
    → length xs ≤ i + num'
    → delete_bytes i num xs ≡ delete_bytes i num' xs
delete_bytes_past i num num' xs h k =
    ap (◌++◌ (take i xs)) (drop_all (i + num) xs h ∙ sym (drop_all (i + num') xs k))

-- On a valid buffer (its block is one byte larger than its capacity, or it has none and the capacity is 0; the length
-- is at most the capacity),
-- `membuffer_delete` at an offset inside the buffer, where no sum wraps, the length fits an `int` and
-- one of the calls of `realloc` succeeds: no assertion fails, and the buffer then holds its bytes
-- without those from the offset on, as many as were named or as there are.
pub delete-Leaves :
    (h : Heap) (m : Membuffer) (i num : ℕ)
    → IsValid m
    → (h.first || h.second) ≡ true
    → i < m.length
    → m.length < 2 ^ 31
    → i + num < 2 ^ 32
    → m.capacity + m.size_inc + m.length + 1 < 2 ^ 32
    → Leaves m (delete_bytes i num (contents m)) (delete h m (pos i) num)
unfolding delete
delete-Leaves h m i num v mem inside int sum small =
    let some_bytes : (m.length == 0) ≡ false = ground arith in
    let low : ltb_ℤ (pos i) (pos 0) ≡ false = ground arith in
    let high : ltb_ℤ (pos i) (to_int m.length) ≡ true = ground arith in
    let total : add_size i num ≡ i + num = omega arith in
    let held : length (contents m) ≤ m.length = omega (arith, length-take m.length (block m.buf)) in
    elim (Bool-cases (ltb m.length (i + num))) [
      | inl past ↦
          let rest : sub_size m.length i ≡ m.length - i = omega arith in
          let same : delete_bytes i num (contents m) ≡ delete_bytes i (m.length - i) (contents m) =
            delete_bytes_past i num (m.length - i) (contents m) (ground arith) (omega arith) in
          rw (some_bytes, low, high, total, past, rest, same)
            (deleted-Leaves h m.buf m i (m.length - i) 0 refl v mem (omega arith) (omega arith)
              small)
      | inr within ↦
          let fits : i + num ≤ m.length = ground arith in
          let rest : sub_size m.length (i + num) ≡ m.length - (i + num) = omega arith in
          rw (some_bytes, low, high, total, within, rest)
            (deleted-Leaves h m.buf m i num (m.length - (i + num)) refl v mem (omega arith)
              (omega arith) small)
    ]
