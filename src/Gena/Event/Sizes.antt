-- ===== src/Gena/Event/Sizes.antt =====
-- The sizes that src/gena/gena_server.c allocates for the texts of an event against the texts.
use upnpsdk.Prelude.{
  ℕ, zero, suc, ◌+◌, ◌-◌, ◌*◌, ◌/◌, ◌%◌, ◌^◌, ◌++◌, ◌<◌, ◌≤◌, ◌≡◌, ◌∙◌, List, [], ◌∷◌, arith,
  length, length-append,
}
use upnpsdk.Prelude.Int.{pos}
use upnpsdk.ServiceTable.{Subscription}
use upnpsdk.Gena.Event.{
  digits, decimal, Property, property_text, properties_text, property_set_text, properties_size,
  property_set_header, property_set_end, property_set_size, headers_size, headers_text,
  full_message, full_size,
}

length-digits : (fuel n : ℕ) → length (digits fuel n) ≤ fuel
unfolding digits
length-digits zero n = omega arith
length-digits (suc fuel) n =
    ground (
      arith,
      length-digits fuel (n / 10),
      length-append (digits fuel (n / 10)) ((48 + n % 10) ∷ []),
    )

-- The two steps of a round of the loop.
length-property_text :
    (name value : List ℕ) (size : ℕ)
    → ((size + 27) % 2 ^ 32 + (2 * length name + length value + 6)) % 2 ^ 32
      ≡ (size + length (property_text (name, value))) % 2 ^ 32
unfolding property_text
length-property_text name value size = simp length-append (omega arith)

cut_sum :
    (n size one rest all : ℕ)
    → n ≡ (size + one) % 2 ^ 32
    → all ≡ one + rest
    → (n + rest) % 2 ^ 32 ≡ (size + all) % 2 ^ 32
cut_sum n size one rest all e f = omega (arith, e, f)

properties_size-text :
    (ps : List Property) (size : ℕ)
    → size < 2 ^ 32
    → properties_size ps size ≡ (size + length (properties_text ps)) % 2 ^ 32
unfolding properties_text properties_size
properties_size-text [] size h = omega arith
properties_size-text ((name, value) ∷ ps) size h =
    let n = ((size + 27) % 2 ^ 32 + (2 * length name + length value + 6)) % 2 ^ 32 in
    properties_size-text ps n (omega arith)
    ∙ cut_sum n size (length (property_text (name, value))) (length (properties_text ps)) _
        (length-property_text name value size)
        (length-append (property_text (name, value)) (properties_text ps))

property_set_size-text :
    (ps : List Property) → property_set_size ps ≡ length (property_set_text ps) % 2 ^ 32
unfolding property_set_text property_set_size
property_set_size-text ps =
    let sizes =
      properties_size-text ps (length property_set_header + length property_set_end)
        (omega arith) in
    let front = length-append property_set_header (properties_text ps ++ property_set_end) in
    let back = length-append (properties_text ps) property_set_end in
    omega (arith, sizes, front, back)

-- For a text of fewer than 2^31 - 1 bytes, so that its size and one more are an `int`,
-- `GeneratePropertySet` allocates exactly the text and its terminator.
pub length-property_set_text :
    (ps : List Property)
    → length (property_set_text ps) < 2 ^ 31 - 1
    → length (property_set_text ps) ≡ property_set_size ps
length-property_set_text ps h = omega (arith, property_set_size-text ps)

-- A longer one may get a block that does not hold it: the size wraps.
property_set_size-wraps :
    (ps : List Property)
    → 2 ^ 32 ≤ length (property_set_text ps)
    → property_set_size ps + 1 < length (property_set_text ps) + 1
property_set_size-wraps ps h = omega (arith, property_set_size-text ps)

-- The headers of an event fit their block with the terminator, though the size leaves out a colon.
pub headers_text-fits : (property_set : List ℕ) → length (headers_text property_set) < headers_size
unfolding headers_text decimal
headers_text-fits property_set =
    simp length-append (omega (arith, length-digits 10 (length property_set + 1)))

-- The message of `genaNotify` fits its block with the terminator, for an identifier of 41 bytes at most
-- and a key that is not negative.
pub full_message-fits :
    (headers property_set : List ℕ) (s : Subscription) (key : ℕ)
    → length s.sid ≤ 41
    → s.to_send_event_key ≡ pos key
    → length (full_message headers property_set s) < full_size headers property_set
unfolding full_message full_size decimal
full_message-fits headers property_set s key h e =
    rw e (simp length-append (omega (arith, h, length-digits 10 key)))
