-- ===== src/Http/Uri.antt =====
-- The parsing of URIs in src/genlib/http_client/http_client.c. `gethostbyname` is a parameter: the IPv4
-- address that it gives for a name, if it gives one. Ports are in host byte order.
use upnpsdk.Prelude.{
  ℕ, ◌+◌, ◌-◌, ◌*◌, ◌%◌, ◌^◌, Bool, false, not, ◌&&◌, ◌||◌, Option, none, some, List, [], ◌∷◌,
  if◌then◌else◌, leb, ◌==◌, take, drop, bytes,
}
use upnpsdk.Prelude.Int.{ℤ, pos, negsuc}
use upnpsdk.Codes.{Status, rc}
use upnpsdk.Http.Text.{count_while, in_set}

unfoldable pub is_digit : ℕ → Bool
is_digit c = leb 48 c && leb c 57

unfoldable pub is_alpha : ℕ → Bool
is_alpha c = leb 65 c && leb c 90 || leb 97 c && leb c 122

unfoldable pub is_alnum : ℕ → Bool
unfolding is_digit is_alpha
is_alnum c = is_alpha c || is_digit c

unfoldable pub is_xdigit : ℕ → Bool
unfolding is_digit
is_xdigit c = is_digit c || leb 65 c && leb c 70 || leb 97 c && leb c 102

unfoldable pub is_reserved : ℕ → Bool
unfolding in_set
is_reserved c = in_set (bytes ";/?:@&=+$,") c

unfoldable pub is_mark : ℕ → Bool
unfolding in_set
is_mark c = in_set (bytes "-_.!~*'()") c

unfoldable pub is_unreserved : ℕ → Bool
unfolding is_alnum is_mark
is_unreserved c = is_alnum c || is_mark c

-- With the test that three bytes are there.
unfoldable pub is_escaped : List ℕ → Bool
unfolding is_xdigit
is_escaped (c ∷ d ∷ e ∷ l) = c == 37 && is_xdigit d && is_xdigit e
is_escaped _ = false

unfoldable pub uric_count : List ℕ → ℕ
unfolding is_unreserved is_reserved is_escaped
uric_count [] = 0
uric_count (c ∷ l) =
    let n = uric_count l in
    if is_unreserved c || is_reserved c || is_escaped (c ∷ l) then n + 1 else 0

unfoldable pub parse_uric : List ℕ → ℕ × List ℕ
unfolding uric_count
parse_uric input = let n = uric_count input in (n, take n input)

-- The digits read and the port, an `unsigned short`, from its value so far.
unfoldable pub port_from : ℕ → List ℕ → ℕ × ℕ
unfolding is_digit
port_from temp [] = (0, temp)
port_from temp (c ∷ l) =
    let (n, port) = port_from ((temp * 10 % 2 ^ 16 + (c - 48)) % 2 ^ 16) l in
    if is_digit c then (n + 1, port) else (0, temp)

unfoldable pub parse_port : List ℕ → ℕ × ℕ
unfolding port_from
parse_port input = port_from 0 input

-- `hostport_type`.
pub record HostPort : Type 0 where
  pub text : List ℕ
  pub port : ℕ
  pub address : ℕ

-- The test in the loop over the name of the host.
unfoldable pub is_host_char : ℕ → Bool
unfolding is_alnum
is_host_char c = not (c == 58) && not (c == 47) && (is_alnum c || c == 46 || c == 45)

-- The size of the port with its colon, and the port; `none` is a colon without digits, which leaves the port 0.
unfoldable pub host_port : List ℕ → Option (ℕ × ℕ)
unfolding parse_port
host_port [] = some (0, 80)
host_port (c ∷ l) =
    let (n, port) = parse_port l in
    if c == 58 then (if n == 0 then none else some (n + 1, port)) else some (0, 80)

-- The address that is found, or the error; `out` holds the port already.
unfoldable pub host_address : Option ℕ → List ℕ → ℕ → HostPort → ℤ × HostPort
host_address none text size out = (rc Status.invalid_url, record out { address = 0 })
host_address (some address) text size out =
    (pos size, record out { text = text; address = address })

-- The result, below 0 for an error, and what stands in `*out`, where `out` stood before.
unfoldable pub parse_hostport : (List ℕ → Option ℕ) → Bool → List ℕ → HostPort → ℤ × HostPort
unfolding count_while is_host_char host_port host_address
parse_hostport resolve malloc_ok input out =
    let host_size = count_while is_host_char input in
    elim (host_port (drop host_size input)) [
      | none ↦ (rc Status.invalid_url, record out { port = 0 })
      | some (n, port) ↦
          let size = host_size + n in
          let out' : HostPort = record out { port = port } in
          if malloc_ok
          then host_address (resolve (take host_size input)) (take size input) size out'
          else (rc Status.outof_memory, out')
    ]

-- How many bytes stand before the colon; `none` if one of them cannot, or there is no colon.
unfoldable pub scheme_count : List ℕ → Option ℕ
unfolding is_alnum
scheme_count [] = none
scheme_count (c ∷ l) =
    let more : Option ℕ = elim (scheme_count l) [ none ↦ none | some n ↦ some (n + 1) ] in
    if c == 58 then some 0 else if is_alnum c || c == 43 || c == 45 || c == 46 then more else none

unfoldable pub parse_scheme : List ℕ → ℕ × List ℕ
unfolding is_alpha scheme_count
parse_scheme [] = (0, [])
parse_scheme (c ∷ l) =
    if is_alpha c
    then elim (scheme_count l) [ none ↦ (0, []) | some n ↦ (n + 1, take (n + 1) (c ∷ l)) ]
    else (0, [])

-- `uriType` and `pathType`.
pub data UriType : Type 0 where
  absolute relative : UriType

pub data PathType : Type 0 where
  abs_path rel_path opaque_part : PathType

-- `uri_type`.
pub record Uri : Type 0 where
  pub type : UriType
  pub scheme : List ℕ
  pub path_type : PathType
  pub pathquery : List ℕ
  pub fragment : List ℕ
  pub hostport : HostPort

abbrev pub no_host : HostPort
no_host = record { text = []; port = 0; address = 0 }

-- From the path on.
unfoldable pub uri_path : Uri → List ℕ → ℤ × Uri
unfolding parse_uric
uri_path out input =
    let (n, pathquery) = parse_uric input in
    let out' : Uri = record out {
      pathquery = pathquery;
      path_type = elim pathquery [
        | [] ↦ out.path_type
        | c ∷ _ ↦ if c == 47 then PathType.abs_path else out.path_type
      ];
    } in
    (
      pos 1,
      record out' {
        fragment = elim (drop n input) [
          | [] ↦ []
          | c ∷ rest ↦ if c == 35 then (parse_uric rest).1 else []
        ];
      },
    )

-- With the result of `parse_hostport` for what is behind "//".
unfoldable pub behind_host : Uri → ℤ × HostPort → List ℕ → ℤ × Uri
unfolding uri_path
behind_host out (pos n, host) input = uri_path (record out { hostport = host }) (drop n input)
behind_host out (negsuc n, host) input = (negsuc n, record out { hostport = host })

-- From the host on.
unfoldable pub uri_host : (List ℕ → Option ℕ) → Bool → Uri → List ℕ → ℤ × Uri
unfolding parse_hostport behind_host
uri_host resolve malloc_ok out (c ∷ d ∷ l) =
    if c == 47 && d == 47
    then behind_host out (parse_hostport resolve malloc_ok l out.hostport) l
    else uri_path (record out { hostport = no_host }) (c ∷ d ∷ l)
uri_host resolve malloc_ok out input = uri_path (record out { hostport = no_host }) input

-- With the result of `parse_scheme`.
unfoldable pub behind_scheme : (List ℕ → Option ℕ) → Bool → Uri → ℕ × List ℕ → List ℕ → ℤ × Uri
unfolding uri_host
behind_scheme resolve malloc_ok out (n, scheme) input =
    if n == 0
    then uri_host resolve malloc_ok
        (record out { scheme = scheme; type = UriType.relative; path_type = PathType.rel_path })
        input
    else uri_host resolve malloc_ok
        (record out { scheme = scheme; type = UriType.absolute; path_type = PathType.opaque_part })
        (drop (n + 1) input)

-- The result, 1 or an error below 0, and what stands in `*out`, where `out` stood before.
unfoldable pub parse_uri : (List ℕ → Option ℕ) → Bool → List ℕ → Uri → ℤ × Uri
unfolding parse_scheme behind_scheme
parse_uri resolve malloc_ok input out =
    behind_scheme resolve malloc_ok out (parse_scheme input) input
