-- ===== src/Membuffer/Tests.antt =====
-- The theorems on src/genlib/util/membuffer.c at concrete inputs, and runs of its functions.
use upnpsdk.Prelude.{refl, true, none, some, [], ◌∷◌, arith, bytes}
use upnpsdk.Prelude.Int.{pos}
use upnpsdk.Membuffer.{Membuffer, Heap, assign, insert, delete}
use upnpsdk.Membuffer.Size.{IsValid}
use upnpsdk.Membuffer.Contents.{Result, assign-Result, insert-Result}
use upnpsdk.Membuffer.Delete.{Leaves, delete-Leaves}

abbrev empty_buffer : Membuffer
empty_buffer = record { buf = none; length = 0; capacity = 0; size_inc = 5 }

-- "GET" in a block of nine bytes.
abbrev request : Membuffer
request = record {
  buf = some (71 ∷ 69 ∷ 84 ∷ 0 ∷ 9 ∷ 9 ∷ 9 ∷ 9 ∷ 9 ∷ []);
  length = 3;
  capacity = 8;
  size_inc = 5;
}

abbrev willing : Heap
willing = record { first = true; second = true; fresh = λ i. 9 }

request-IsValid : IsValid request
request-IsValid = record { has_block = refl; within = omega arith }

empty_buffer-IsValid : IsValid empty_buffer
empty_buffer-IsValid = record { has_block = refl; within = omega arith }

assign-Result_example :
    Result willing empty_buffer (bytes "POST") (assign willing empty_buffer (some (bytes "POST")))
assign-Result_example =
    assign-Result willing empty_buffer (bytes "POST") empty_buffer-IsValid (omega arith)
      (omega arith)

insert-Result_example :
    Result willing request (bytes "G/ET") (insert willing request (some (bytes "/")) (pos 1))
insert-Result_example =
    insert-Result willing request (bytes "/") 1 request-IsValid (omega arith) (omega arith)
      (omega arith) (omega arith)

delete-Leaves_example : Leaves request (bytes "GT") (delete willing request (pos 1) 1)
delete-Leaves_example =
    delete-Leaves willing request 1 1 request-IsValid refl (omega arith) (omega arith) (omega arith)
      (omega arith)
