-- ===== src/Http/Bounded.antt =====
-- The loop over the headers in src/genlib/http_client/http_client.c ends.
use upnpsdk.Prelude.{
  ℕ, zero, suc, ◌≤◌, ◌<◌, ◌≡◌, ◌≢◌, refl, Option, none, some, List, [], ◌∷◌, arith, ◌==◌, ◌>>=◌,
  length, length-drop, drop, Bool-cases, inl, inr,
}
use upnpsdk.Prelude.Int.{ℤ, pos, negsuc}
use upnpsdk.Codes.{Status}
use upnpsdk.Http.Text.{parse_lws, parse_token, parse_http_line, parse_header_value}
use upnpsdk.Http.Message.{
  Header, Round, bad_header, parsed, behind_value, header_value, behind_name, parse_header, at_end,
  ends, Headers, header_loop,
}

-- A round that leaves fewer bytes than the number, if it leaves any.
abbrev LeavesBelow : ℕ → Option Round → Type 0
LeavesBelow n none = Unit {0}
LeavesBelow n (some bad_header) = Unit {0}
LeavesBelow n (some (parsed h rest)) = length rest < n

behind_value-LeavesBelow :
    (name behind : List ℕ) (n : ℕ) (r : ℤ × List ℕ)
    → length behind < n
    → LeavesBelow n (behind_value name behind r)
unfolding behind_value
behind_value-LeavesBelow name behind n (pos k, value) h =
    let l = drop k behind in
    omega (arith, length-drop k behind, length-drop (parse_http_line l) l, h)
behind_value-LeavesBelow name behind n (negsuc k, value) h = tt

behind_name-LeavesBelow :
    (name input : List ℕ) (n : ℕ) → length input ≤ n → LeavesBelow n (behind_name name input)
unfolding behind_name header_value
behind_name-LeavesBelow name [] n h = tt
behind_name-LeavesBelow name (c ∷ rest) n h = elim (Bool-cases (c == 58)) [
  | inl colon ↦ rw colon (
      behind_value-LeavesBelow name (drop (parse_lws rest) rest) n
        (parse_header_value (drop (parse_lws rest) rest))
        (omega (arith, length-drop (parse_lws rest) rest, h)))
  | inr other ↦ rw other tt
]

parse_header-LeavesBelow : (input : List ℕ) → LeavesBelow (length input) (parse_header input)
unfolding parse_header
parse_header-LeavesBelow input = elim (Bool-cases ((parse_token input).0 == 0)) [
  | inl empty ↦ rw empty tt
  | inr some_name ↦ rw some_name (
      behind_name-LeavesBelow (parse_token input).1 (drop (parse_token input).0 input)
        (length input) (omega (arith, length-drop (parse_token input).0 input)))
]

-- The loop does not end for lack of memory.
abbrev pub HasMemory : Option Headers → Type 0
HasMemory none = Unit {0}
HasMemory (some r) = r.result ≢ Status.outof_memory

consed-HasMemory :
    (h : Header) (o : Option Headers)
    → HasMemory o
    → HasMemory (o >>= λ r. some (record r { list = h ∷ r.list }))
consed-HasMemory h none m = tt
consed-HasMemory h (some r) m = m

round-HasMemory :
    (room : ℕ) (input : List ℕ)
    → length input ≤ suc room
    → (o : Option Round) → parse_header input ≡ o
    → LeavesBelow (length input) o
    → ((l : List ℕ) → length l ≤ room → HasMemory (header_loop room l))
    → HasMemory (header_loop (suc room) input)
unfolding header_loop ends
round-HasMemory room input h o e b ih = elim (Bool-cases (at_end input)) [
  | inl end ↦ rw (header_loop, end) (λ e. cc)
  | inr more ↦ rw (header_loop, more, e) (behind o b)
]
  where
    behind :
        (o : Option Round)
        → LeavesBelow (length input) o
        → HasMemory (elim o [
          | none ↦ none
          | some bad_header ↦ some (ends Status.bad_request input)
          | some (parsed h rest) ↦
              header_loop room rest >>= λ r. some (record r { list = h ∷ r.list })
        ])
    behind none b = tt
    behind (some bad_header) b = λ e. cc
    behind (some (parsed x rest)) b =
        consed-HasMemory x (header_loop room rest) (ih rest (omega arith))

-- With memory for as many headers as there are bytes, the loop of `parse_headers` ends by itself: it
-- never gives UPNP_E_OUTOF_MEMORY.
pub header_loop-HasMemory :
    (room : ℕ) (input : List ℕ) → length input ≤ room → HasMemory (header_loop room input)
unfolding header_loop ends at_end
header_loop-HasMemory zero [] h = λ e. cc
header_loop-HasMemory zero (c ∷ l) h = absurd (omega arith)
header_loop-HasMemory (suc room) input h =
    round-HasMemory room input h (parse_header input) refl (parse_header-LeavesBelow input)
      (λ l k. header_loop-HasMemory room l k)
