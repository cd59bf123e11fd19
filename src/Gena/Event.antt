-- ===== src/Gena/Event.antt =====
-- src/gena/gena_server.c: the texts of an event, `GeneratePropertySet`, the headers, and the message
-- that `genaNotify` makes of them. A text is its bytes without the terminator.
pub mod Sizes
use upnpsdk.Prelude.{
  ℕ, zero, suc, ◌+◌, ◌*◌, ◌/◌, ◌%◌, ◌^◌, Bool, true, false, Option, none, some, List, [], ◌∷◌, ◌++◌,
  if◌then◌else◌, length, ltb, bytes,
}
use upnpsdk.Prelude.Int.{ℤ, pos, negsuc, eqb_ℤ}
use upnpsdk.Prelude.Search.{find_str}
use upnpsdk.Codes.{Status, rc}
use upnpsdk.Http.Uri.{Uri}
use upnpsdk.ServiceTable.{Subscription}

-- The decimal digits of a number, 10 at most: enough for an `int`.
unfoldable pub digits : ℕ → ℕ → List ℕ
digits zero n = []
digits (suc fuel) n =
    let rest = digits fuel (n / 10) in
    if ltb n 10 then (b'0' + n) ∷ [] else rest ++ ((b'0' + n % 10) ∷ [])

-- `%d`.
unfoldable pub decimal : ℤ → List ℕ
unfolding digits
decimal (pos n) = digits 10 n
decimal (negsuc n) = b'-' ∷ digits 10 (n + 1)

abbrev pub property_set_header : List ℕ
property_set_header = bytes "<e:propertyset xmlns:e=\"urn:schemas-upnp-org:event-1-0\">\n"

abbrev pub property_set_end : List ℕ
property_set_end = bytes "</e:propertyset>\n\n"

-- A name and its value.
abbrev pub Property : Type 0
Property = List ℕ × List ℕ

unfoldable pub property_text : Property → List ℕ
property_text (name, value) =
    bytes "<e:property>\n"
    ++ (bytes "<"
        ++ (name ++ (bytes ">" ++ (value ++ (bytes "</" ++ (name ++ bytes ">\n</e:property>\n"))))))

unfoldable pub properties_text : List Property → List ℕ
unfolding property_text
properties_text [] = []
properties_text (p ∷ ps) = property_text p ++ properties_text ps

unfoldable pub property_set_text : List Property → List ℕ
unfolding properties_text
property_set_text ps = property_set_header ++ (properties_text ps ++ property_set_end)

-- What the loop makes of the `int` that holds the size, given as its 32 bits: the sums of the
-- `size_t`s are cut off to them.
unfoldable pub properties_size : List Property → ℕ → ℕ
properties_size [] size = size
properties_size ((name, value) ∷ ps) size =
    let size = (size + length (bytes "<e:property>\n</e:property>\n")) % 2 ^ 32 in
    properties_size ps
      ((size + (2 * length name + length value + length (bytes "<></>\n"))) % 2 ^ 32)

-- The size of the block is one more.
unfoldable pub property_set_size : List Property → ℕ
unfolding properties_size
property_set_size ps = properties_size ps (length property_set_header + length property_set_end)

-- The result and the text, where `property_set_size` does not wrap.
unfoldable pub generate_property_set : Bool → List Property → ℤ × List ℕ
unfolding property_set_text
generate_property_set malloc_ok ps =
    if malloc_ok then (pos 0, property_set_text ps) else (rc Status.outof_memory, [])

-- What the two `Ext` functions do in its place with the text that `UpnpNewPrintDocument` returns, if
-- it returns one: the XML declaration is cut off.
unfoldable pub print_property_set : Option (List ℕ) → ℤ × List ℕ
unfolding find_str
print_property_set none = (rc Status.invalid_param, [])
print_property_set (some text) = elim (find_str text (bytes "<e:propertyset")) [
  | none ↦ (rc Status.invalid_param, [])
  | some (before, from) ↦ (pos 0, from)
]

abbrev pub max_content_length : ℕ
max_content_length = 20

abbrev pub max_events : ℕ
max_events = 20

abbrev pub headers_size : ℕ
headers_size =
    length (bytes "CONTENT-TYPE text/xml\r\n")
    + length (bytes "CONTENT-LENGTH: \r\n")
    + max_content_length
    + length (bytes "NT: upnp:event\r\n")
    + length (bytes "NTS: upnp:propchange\r\n")
    + 1

-- The content counts the terminator of the text.
unfoldable pub headers_text : List ℕ → List ℕ
unfolding decimal
headers_text property_set =
    bytes "CONTENT-TYPE: text/xml\r\nCONTENT-LENGTH: "
    ++ (decimal (pos (length property_set + 1))
        ++ bytes "\r\nNT: upnp:event\r\nNTS: upnp:propchange\r\n")

-- `full_message` of `genaNotify`, and the size of its block.
unfoldable pub full_message : List ℕ → List ℕ → Subscription → List ℕ
unfolding decimal
full_message headers property_set s =
    headers
    ++ (bytes "SID: "
        ++ (s.sid
            ++ (bytes "\r\nSEQ: "
                ++ (decimal s.to_send_event_key ++ (bytes "\r\n\r\n" ++ property_set)))))

-- The C code adds in an `int`: two texts that lie in one memory of 2^32 bytes do not take it past its
-- 32 bits.
unfoldable pub full_size : List ℕ → List ℕ → ℕ
full_size headers property_set =
    length headers
    + length (bytes "SID: \r\n")
    + 41
    + length (bytes "SEQ: \r\n\r\n")
    + max_events
    + length property_set
    + 1
