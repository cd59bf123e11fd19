-- ===== src/Ssdp/Names.antt =====
-- `Unique_Service_Name` and `Request_Tpye` of src/ssdp/ssdpparser.c: USN, ST and NT.
use upnpsdk.Prelude.{
  ℕ, ◌+◌, ◌-◌, Bool, true, false, ◌&&◌, Option, none, some, List, ◌++◌, if◌then◌else◌, ltb, ◌>>=◌,
  take, drop, length, bytes,
}
use upnpsdk.Prelude.Search.{find_str, has}
use upnpsdk.Ssdp.Event.{
  all, rootdevice, device, service, Event, line_size, command_len, no_error_found, Parsed,
  return_ok, return_bad, syntax_error, copy_to,
}

-- The last copies of the branch for "uuid:schemas": `pos3` is the offset of the third colon, `name`
-- what stands behind it.
schemas_store : List ℕ → ℕ → List ℕ → Event → Parsed
unfolding find_str
schemas_store cmd pos3 name e = do
  u ← copy_to line_size (bytes "uuid:" ++ name)
  let e1 = record e { udn = u }
  elim (find_str cmd (bytes ":")) [
    | none ↦ return_bad e1
    | some (before, from) ↦ do
      tmp ← copy_to command_len (take (pos3 - length before) from)
      d ← copy_to line_size (bytes "urn" ++ tmp)
      return_ok (record e1 { device_type = d })
  ]

schemas_name : List ℕ → Event → Parsed
unfolding find_str schemas_store
schemas_name cmd e = elim (find_str cmd (bytes ":device")) [
  | none ↦ return_bad e
  | some (b1, p1) ↦ elim (find_str (drop 1 p1) (bytes ":")) [
    | none ↦ return_bad e
    | some (b2, p2) ↦ elim (find_str (drop 1 p2) (bytes ":")) [
      | none ↦ return_bad e
      | some (b3, p3) ↦ schemas_store cmd (length b1 + 1 + length b2 + 1 + length b3) (drop 1 p3) e
    ]
  ]
]

-- The UDN: from "uuid" up to "::", or to the end. `Ptr - TempPtr` below 0 is a huge count.
uuid_part : List ℕ → Event → Option (Bool × Event)
unfolding find_str
uuid_part cmd e = elim (find_str cmd (bytes "uuid")) [
  | none ↦ some (false, e)
  | some (before, from) ↦ elim (find_str cmd (bytes "::")) [
    | some (upto, _) ↦
        if ltb (length upto) (length before)
        then none
        else copy_to line_size (take (length upto - length before) from) >>= λ s.
            some (true, record e { udn = s })
    | none ↦ copy_to line_size from >>= λ s. some (true, record e { udn = s })
  ]
]

-- From the first "urn" on, if the text has "urn:" and the word.
urn_part : List ℕ → List ℕ → Option (List ℕ)
unfolding has find_str
urn_part cmd word =
    if has cmd (bytes "urn:") && has cmd word
    then elim (find_str cmd (bytes "urn")) [ none ↦ none | some (before, from) ↦ some from ]
    else none

service_part : List ℕ → Bool × Event → Option (Bool × Event)
unfolding urn_part
service_part cmd (found, e) = elim (urn_part cmd (bytes ":service:")) [
  | none ↦ some (found, e)
  | some from ↦ copy_to line_size from >>= λ s. some (true, record e { service_type = s })
]

device_part : List ℕ → Bool × Event → Option (Bool × Event)
unfolding urn_part
device_part cmd (found, e) = elim (urn_part cmd (bytes ":device:")) [
  | none ↦ some (found, e)
  | some from ↦ copy_to line_size from >>= λ s. some (true, record e { device_type = s })
]

unfoldable pub unique_service_name : List ℕ → Event → Parsed
unfolding has schemas_name uuid_part service_part device_part
unique_service_name cmd e =
    if has cmd (bytes "uuid:schemas")
    then schemas_name cmd e
    else uuid_part cmd e >>= service_part cmd >>= device_part cmd >>= λ (found, e1).
        if found then return_ok e1 else return_bad e1

-- The tests of `Request_Tpye`, in their order.
classify : List ℕ → Event → Parsed
unfolding has
classify cmd e =
    if has cmd (bytes "ssdp:all")
    then return_ok (record e { request_type = all })
    else if has cmd (bytes ":rootdevice")
    then return_ok (record e { request_type = rootdevice })
    else if has cmd (bytes "uuid:")
    then return_ok (record e { request_type = device })
    else if has cmd (bytes "urn:") && has cmd (bytes ":device:")
    then return_ok (record e { request_type = device })
    else if has cmd (bytes "urn:") && has cmd (bytes ":service:")
    then return_ok (record e { request_type = service })
    else syntax_error e

-- `Request_Tpye`: the return value of `Unique_Service_Name` is not looked at.
unfoldable pub request_type_header : List ℕ → Event → Parsed
unfolding unique_service_name classify
request_type_header cmd e =
    unique_service_name cmd e >>= λ (r, e1). classify cmd (record e1 { err_code = no_error_found })
