-- ===== src/Ssdp/Values.antt =====
-- Which function of src/ssdp/ssdpparser.c a header line goes to, and what it does with the value.
use upnpsdk.Prelude.{
  ℕ, ◌<◌, ◌≡◌, ◌≢◌, refl, ◌∙◌, Bool, true, false, ◌||◌, Option, none, some, List, [], ◌∷◌, ◌++◌,
  arith, length, bytes, All,
}
use upnpsdk.Prelude.Int.{ℤ}
use upnpsdk.Prelude.Search.{eq_nocase, find_str-absent, find_str-append}
use upnpsdk.Ssdp.Event.{Event, Parsed, return_ok}
use upnpsdk.Ssdp.Headers.{
  fun_list, location_header, host, os_header, man_header, date_header, ext_header,
}
use upnpsdk.Ssdp.Analyze.{header_line, dispatch}

-- Some name of the table fits, in any case of its letters.
unfoldable pub is_known : List (List ℕ × (List ℕ → Event → Parsed)) → List ℕ → Bool
is_known [] name = false
is_known ((key, f) ∷ rest) name = eq_nocase key name || is_known rest name

header_line_value :
    (name value : List ℕ) (r : ℤ) (e : Event)
    → All (λ c. c ≢ 58) name
    → header_line (name ++ (58 ∷ value)) r e ≡ dispatch fun_list name (some value) r e
unfolding header_line
header_line_value name value r e h = rw (find_str-append name 58 [] value h refl, header_line)

header_line_bare :
    (name : List ℕ) (r : ℤ) (e : Event)
    → All (λ c. c ≢ 58) name
    → header_line name r e ≡ dispatch fun_list name none r e
unfolding header_line
header_line_bare name r e h = rw (find_str-absent name 58 [] h, header_line)

dispatch_unknown :
    (table : List (List ℕ × (List ℕ → Event → Parsed))) (name : List ℕ) (value : Option (List ℕ))
    (r : ℤ) (e : Event)
    → is_known table name ≡ false
    → dispatch table name value r e ≡ some (r, e)
unfolding dispatch is_known
dispatch_unknown [] name value r e h = refl
dispatch_unknown ((key, f) ∷ rest) name value r e h =
    ground (arith, dispatch_unknown rest name value r e)

dispatch_null :
    (table : List (List ℕ × (List ℕ → Event → Parsed))) (name : List ℕ) (r : ℤ) (e : Event)
    → is_known table name ≡ true
    → dispatch table name none r e ≡ none
unfolding dispatch is_known
dispatch_null [] name r e h = cc
dispatch_null ((key, f) ∷ rest) name r e h = ground (arith, dispatch_null rest name r e)

-- A header line whose name is none of the table, in any case of its letters, changes nothing: the
-- event and the return value stay as they were.
pub header_line-unknown :
    (name value : List ℕ) (r : ℤ) (e : Event)
    → All (λ c. c ≢ 58) name
    → is_known fun_list name ≡ false
    → header_line (name ++ (58 ∷ value)) r e ≡ some (r, e)
header_line-unknown name value r e h unknown =
    header_line_value name value r e h ∙ dispatch_unknown fun_list name (some value) r e unknown

-- A line without colon that is a name of the table, in any case of its letters, is read through
-- NULL + 1.
pub header_line-no_colon :
    (name : List ℕ) (r : ℤ) (e : Event)
    → All (λ c. c ≢ 58) name
    → is_known fun_list name ≡ true
    → header_line name r e ≡ none
header_line-no_colon name r e h known =
    header_line_bare name r e h ∙ dispatch_null fun_list name r e known

-- The six headers whose value is copied whole.
module _ (v : List ℕ) (r : ℤ) (e : Event) (long : 7 < length v) (short : length v < 180) where
  dispatch-host :
      dispatch fun_list (bytes "HOST") (some v) r e ≡ return_ok (record e { host_addr = v })
  unfolding dispatch fun_list eq_nocase host
  dispatch-host = ground arith

  dispatch-location :
      dispatch fun_list (bytes "LOCATION") (some v) r e ≡ return_ok (record e { location = v })
  unfolding dispatch fun_list eq_nocase location_header
  dispatch-location = ground arith

  dispatch-server :
      dispatch fun_list (bytes "SERVER") (some v) r e ≡ return_ok (record e { os = v })
  unfolding dispatch fun_list eq_nocase os_header
  dispatch-server = ground arith

  dispatch-man : dispatch fun_list (bytes "MAN") (some v) r e ≡ return_ok (record e { man = v })
  unfolding dispatch fun_list eq_nocase man_header
  dispatch-man = ground arith

  dispatch-date : dispatch fun_list (bytes "DATE") (some v) r e ≡ return_ok (record e { date = v })
  unfolding dispatch fun_list eq_nocase date_header
  dispatch-date = ground arith

  dispatch-ext : dispatch fun_list (bytes "EXT") (some v) r e ≡ return_ok (record e { ext = v })
  unfolding dispatch fun_list eq_nocase ext_header
  dispatch-ext = ground arith

  -- The header lines HOST, LOCATION, SERVER, MAN, DATE and EXT with a value of 8 to 179 bytes store
  -- exactly the bytes behind the colon in the field of their own, change no other field, and return 1.
  pub header_line-copied :
      (header_line (bytes "HOST" ++ (58 ∷ v)) r e ≡ return_ok (record e { host_addr = v }))
      × (header_line (bytes "LOCATION" ++ (58 ∷ v)) r e ≡ return_ok (record e { location = v }))
      × (header_line (bytes "SERVER" ++ (58 ∷ v)) r e ≡ return_ok (record e { os = v }))
      × (header_line (bytes "MAN" ++ (58 ∷ v)) r e ≡ return_ok (record e { man = v }))
      × (header_line (bytes "DATE" ++ (58 ∷ v)) r e ≡ return_ok (record e { date = v }))
      × (header_line (bytes "EXT" ++ (58 ∷ v)) r e ≡ return_ok (record e { ext = v }))
  header_line-copied = (
    header_line_value (bytes "HOST") v r e (omega arith) ∙ dispatch-host,
    header_line_value (bytes "LOCATION") v r e (omega arith) ∙ dispatch-location,
    header_line_value (bytes "SERVER") v r e (omega arith) ∙ dispatch-server,
    header_line_value (bytes "MAN") v r e (omega arith) ∙ dispatch-man,
    header_line_value (bytes "DATE") v r e (omega arith) ∙ dispatch-date,
    header_line_value (bytes "EXT") v r e (omega arith) ∙ dispatch-ext,
  )
