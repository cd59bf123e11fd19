-- ===== src/Ssdp/Headers.antt =====
-- The other header functions of src/ssdp/ssdpparser.c, and the table of all.
use upnpsdk.Prelude.{
  ℕ, ◌||◌, none, some, List, [], ◌∷◌, if◌then◌else◌, ltb, ◌==◌, ◌>>=◌, length, bytes,
}
use upnpsdk.Prelude.Int.{pos, leb_ℤ}
use upnpsdk.Prelude.Search.{has, eq_nocase, atoi}
use upnpsdk.Ssdp.Event.{
  alive, byebye, Event, Parsed, return_ok, return_bad, syntax_error, copied, str_tok,
}
use upnpsdk.Ssdp.Names.{unique_service_name, request_type_header}

unfoldable pub cache_control : List ℕ → Event → Parsed
unfolding str_tok atoi
cache_control cmd e =
    let (t1, rest) = str_tok (some cmd) (bytes "=") in
    let (t2, rest2) = str_tok rest (bytes "=") in
    elim t1 [
      | none ↦ syntax_error e
      | some t ↦ elim t2 [
        | none ↦ return_bad e
        | some age ↦ return_ok (record e { max_age = atoi age })
      ]
    ]

unfoldable pub location_header : List ℕ → Event → Parsed
location_header cmd e =
    if ltb 7 (length cmd) then copied cmd (λ s. record e { location = s }) else syntax_error e

unfoldable pub os_header : List ℕ → Event → Parsed
os_header cmd e =
    if ltb 0 (length cmd) then copied cmd (λ s. record e { os = s }) else syntax_error e

unfoldable pub host : List ℕ → Event → Parsed
host cmd e =
    if ltb 0 (length cmd) then copied cmd (λ s. record e { host_addr = s }) else syntax_error e

-- A second token that is not there is compared all the same.
unfoldable pub notification_sub_type : List ℕ → Event → Parsed
unfolding str_tok eq_nocase
notification_sub_type cmd e =
    let (t1, rest) = str_tok (some cmd) (bytes ":") in
    let (t2, rest2) = str_tok rest (bytes ":") in
    t2 >>= λ t.
    if eq_nocase (bytes "alive") t
    then return_ok (record e { cmd = alive })
    else if eq_nocase (bytes "byebye") t
    then return_ok (record e { cmd = byebye })
    else syntax_error e

unfoldable pub max_delay : List ℕ → Event → Parsed
unfolding str_tok has atoi
max_delay cmd e =
    let (t1, rest) = str_tok (some cmd) (bytes ":") in
    if ltb 0 (length cmd)
    then elim t1 [
      | none ↦ syntax_error e
      | some t ↦
          if length t == 0 || leb_ℤ (atoi t) (pos 0) || has t (bytes ".")
          then syntax_error e
          else return_ok (record e { mx = atoi t })
    ]
    else syntax_error e

unfoldable pub ext_header : List ℕ → Event → Parsed
ext_header cmd e =
    if ltb 0 (length cmd) then copied cmd (λ s. record e { ext = s }) else return_ok e

unfoldable pub man_header : List ℕ → Event → Parsed
man_header cmd e =
    if ltb 0 (length cmd) then copied cmd (λ s. record e { man = s }) else syntax_error e

unfoldable pub date_header : List ℕ → Event → Parsed
date_header cmd e =
    if ltb 0 (length cmd) then copied cmd (λ s. record e { date = s }) else syntax_error e

-- `Token_List` beside `FunList` as `InitParser` fills it.
unfoldable pub fun_list : List (List ℕ × (List ℕ → Event → Parsed))
fun_list =
    (bytes "CACHE-CONTROL", cache_control)
    ∷ (bytes "ST", request_type_header)
    ∷ (bytes "LOCATION", location_header)
    ∷ (bytes "HOST", host)
    ∷ (bytes "USN", unique_service_name)
    ∷ (bytes "NT", request_type_header)
    ∷ (bytes "NTS", notification_sub_type)
    ∷ (bytes "EXT", ext_header)
    ∷ (bytes "SERVER", os_header)
    ∷ (bytes "MAN", man_header)
    ∷ (bytes "MX", max_delay)
    ∷ (bytes "DATE", date_header)
    ∷ []
