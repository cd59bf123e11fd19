-- ===== src/Membuffer/Faults.antt =====
-- Calls of src/genlib/util/membuffer.c that are refused, and calls that leave the block.
use upnpsdk.Prelude.{
  ℕ, ◌+◌, ◌^◌, ◌<◌, ◌≡◌, subst, ◌⊎◌, inl, inr, true, false, ◌||◌, Option, none, some, List, [],
  arith, length, leb,
}
use upnpsdk.Prelude.Int.{ℤ, pos, ltb_ℤ, to_int, ◌<ℤ◌}
use upnpsdk.Codes.{Status}
use upnpsdk.Membuffer.{Membuffer, Heap, set_size, write_at, store, assign, insert, attach}
use upnpsdk.Membuffer.Size.{HasBlock, IsValid}
use upnpsdk.Membuffer.Write.{put, write_at_fits, length-put}

-- `membuffer_insert` at an index below 0 or above the length of a buffer whose length fits an `int`
-- returns UPNP_E_OUTOF_BOUNDS and changes nothing, whatever the bytes are and whatever the heap does.
pub insert-outof_bounds :
    (h : Heap) (m : Membuffer) (src : Option (List ℕ)) (index : ℤ)
    → m.length < 2 ^ 31
    → (index <ℤ pos 0) ⊎ (pos m.length <ℤ index)
    → insert h m src index ≡ some (Status.outof_bounds, m)
unfolding insert
insert-outof_bounds h m src index int (inl low) =
    let e : ltb_ℤ index (pos 0) ≡ true = ground arith in rw e
insert-outof_bounds h m src index int (inr high) =
    let e : ltb_ℤ (to_int m.length) index ≡ true = ground arith in
    let o : (ltb_ℤ index (pos 0) || ltb_ℤ (to_int m.length) index) ≡ true = ground arith in rw o

-- `membuffer_assign` of no bytes (from a pointer that is not NULL) to a valid buffer with no block
-- writes the terminator through NULL.
pub assign-empty-faults :
    (h : Heap) (m : Membuffer) → IsValid m → m.buf ≡ none → assign h m (some []) ≡ none
unfolding assign set_size store write_at
assign-empty-faults h m v e =
    let c : m.capacity ≡ 0 = subst (λ x. HasBlock x m.capacity) e v.has_block in
    let l : m.length ≡ 0 = omega (arith, v.within) in ground arith

-- `membuffer_attach` records as capacity the very size of the block it is given. Assigning as many
-- bytes then writes the terminator one byte past the block.
pub assign-attach-faults :
    (h : Heap) (m : Membuffer) (b src : List ℕ)
    → length src ≡ length b
    → assign h (attach m (some b) (length b)) (some src) ≡ none
unfolding assign attach set_size store write_at
assign-attach-faults h m b src e =
    let room : leb (length b) (length src) ≡ true = ground arith in
    let fits : leb (length src) (length b) ≡ true = ground arith in
    let size : length (put 0 src b) ≡ length b = length-put 0 src b (omega arith) in
    let past : leb (length src + 1) (length (put 0 src b)) ≡ false = ground arith in
    rw (room, fits, write_at_fits 0 src b (omega arith), past)
