-- ===== src/Http/Absolute.antt =====
-- What `parse_uri` of src/genlib/http_client/http_client.c reads from an absolute URL.
use upnpsdk.Prelude.{
  false, not, ◌&&◌, ℕ, suc, ◌+◌, ◌-◌, ◌*◌, ◌%◌, ◌^◌, ◌≡◌, ◌≢◌, refl, sym, ap, ◌∙◌, Bool, true, ◌||◌,
  Option, some, List, [], ◌∷◌, ◌++◌, All, arith, length, length-append, take, drop, append_assoc,
  drop-append_eq, take-append_eq, ◌==◌,
}
use upnpsdk.Prelude.Int.{pos}
use upnpsdk.Http.Text.{in_set}
use upnpsdk.Http.Lines.{is_stop, length_not_zero, count_while-append}
use upnpsdk.Http.Uri.{
  is_escaped, is_alpha, is_alnum, is_digit, is_host_char, is_unreserved, is_reserved, uric_count,
  parse_uric, port_from, parse_port, HostPort, host_port, host_address, parse_hostport,
  scheme_count, parse_scheme, UriType, PathType, Uri, uri_path, behind_host, uri_host,
  behind_scheme, parse_uri,
}

-- The bytes that a scheme may have behind its first.
abbrev pub is_scheme_char : ℕ → Bool
is_scheme_char c = is_alnum c || c == 43 || c == 45 || c == 46

-- The number with these digits behind the number `n`.
pub decimal : ℕ → List ℕ → ℕ
decimal n [] = n
decimal n (c ∷ l) = decimal (n * 10 + (c - 48)) l

-- The value of a port of some digits.
abbrev pub port_value : List ℕ → ℕ
port_value digits = decimal 0 digits % 2 ^ 16

port_from-decimal :
    (temp n : ℕ) (xs : List ℕ)
    → temp ≡ n % 2 ^ 16
    → All (λ c. is_digit c ≡ true) xs
    → (port_from temp xs).1 ≡ decimal n xs % 2 ^ 16
unfolding port_from decimal
port_from-decimal temp n [] e h = e
port_from-decimal temp n (c ∷ xs) e h =
    let next = (temp * 10 % 2 ^ 16 + (c - 48)) % 2 ^ 16 in
    let same : next ≡ (n * 10 + (c - 48)) % 2 ^ 16 = omega (arith, e) in
    rw h.0 (port_from-decimal next (n * 10 + (c - 48)) xs same h.1)

scheme_count-append :
    (xs rest : List ℕ)
    → All (λ c. is_scheme_char c ≡ true) xs
    → scheme_count (xs ++ (58 ∷ rest)) ≡ some (length xs)
unfolding scheme_count is_alnum is_alpha is_digit
scheme_count-append [] rest h = refl
scheme_count-append (c ∷ xs) rest h = ground (arith, scheme_count-append xs rest h.1, h.0)

port_from-append :
    (temp : ℕ) (xs rest : List ℕ)
    → All (λ c. is_digit c ≡ true) xs
    → is_stop is_digit rest ≡ true
    → port_from temp (xs ++ rest) ≡ (length xs, (port_from temp xs).1)
unfolding port_from
port_from-append temp [] [] h s = refl
port_from-append temp [] (c ∷ rest) h s = ground arith
port_from-append temp (c ∷ xs) rest h s =
    ground (arith, port_from-append ((temp * 10 % 2 ^ 16 + (c - 48)) % 2 ^ 16) xs rest h.1 s, h.0)

-- A path ends here: at the end, or before a byte that is none of a path, and no "#".
abbrev pub ends_path : List ℕ → Bool
ends_path [] = true
ends_path (c ∷ l) = not (is_unreserved c || is_reserved c) && not (c == 37) && not (c == 35)

is_escaped_not : (c : ℕ) (l : List ℕ) → (c == 37) ≡ false → is_escaped (c ∷ l) ≡ false
unfolding is_escaped
is_escaped_not c [] h = refl
is_escaped_not c (d ∷ []) h = refl
is_escaped_not c (d ∷ e ∷ l) h = rw h refl

three_tests :
    (a b c : Bool) → (not a && not b && not c) ≡ true → (a ≡ false) × (b ≡ false) × (c ≡ false)
three_tests a b c h = ground arith

none_of : (a b c : Bool) → (a || b) ≡ false → c ≡ false → (a || b || c) ≡ false
none_of a b c h k = ground arith

uric_count-end : (rest : List ℕ) → ends_path rest ≡ true → uric_count rest ≡ 0
unfolding uric_count
uric_count-end [] h = refl
uric_count-end (c ∷ l) h =
    let parts = three_tests (is_unreserved c || is_reserved c) (c == 37) (c == 35) h in
    rw
      (none_of (is_unreserved c) (is_reserved c) (is_escaped (c ∷ l)) parts.0
        (is_escaped_not c l parts.1))
      refl

uric_count-append :
    (xs rest : List ℕ)
    → All (λ c. (is_unreserved c || is_reserved c) ≡ true) xs
    → ends_path rest ≡ true
    → uric_count (xs ++ rest) ≡ length xs
unfolding uric_count
uric_count-append [] rest h e = uric_count-end rest e
uric_count-append (c ∷ xs) rest h e = ground (arith, uric_count-append xs rest h.1 e, h.0)

-- The parts of an absolute URL with a host and a port.
pub record UrlParts : Type 0 where
  pub first : ℕ
  pub more : List ℕ
  pub host : List ℕ
  pub digits : List ℕ
  pub path : List ℕ

abbrev pub port_and_path : UrlParts → List ℕ → List ℕ
port_and_path u rest = 58 ∷ (u.digits ++ (47 ∷ (u.path ++ rest)))

-- `scheme://host:port/path`, with the scheme from `first` on and the path behind its slash, in front of
-- the rest.
abbrev pub url_text : UrlParts → List ℕ → List ℕ
url_text u rest = (u.first ∷ u.more) ++ (58 ∷ 47 ∷ 47 ∷ (u.host ++ port_and_path u rest))

-- Every part consists of bytes that it may have, and the port has a digit.
pub record IsUrl (u : UrlParts) : Type 0 where
  pub alpha : is_alpha u.first ≡ true
  pub scheme_chars : All (λ c. is_scheme_char c ≡ true) u.more
  pub host_chars : All (λ c. is_host_char c ≡ true) u.host
  pub has_port : u.digits ≢ []
  pub port_digits : All (λ c. is_digit c ≡ true) u.digits
  pub path_chars : All (λ c. (is_unreserved c || is_reserved c) ≡ true) u.path

parse_scheme-url :
    (u : UrlParts) (end : List ℕ)
    → IsUrl u
    → parse_scheme (url_text u end) ≡ (length (u.first ∷ u.more), u.first ∷ u.more)
unfolding parse_scheme
parse_scheme-url u end p =
    let rest = 47 ∷ 47 ∷ (u.host ++ port_and_path u end) in
    let one_more : length u.more + 1 ≡ suc (length u.more) = omega arith in
    rw
      (
        p.alpha,
        scheme_count-append u.more rest p.scheme_chars,
        one_more,
        take-append_eq (length u.more) u.more (58 ∷ rest) refl,
      )
      refl

-- The host and the port, as the parts give them.
abbrev pub host_of : UrlParts → ℕ → HostPort
host_of u address = record {
  text = u.host ++ (58 ∷ u.digits);
  port = port_value u.digits;
  address = address;
}

host_port-url :
    (u : UrlParts) (end : List ℕ)
    → IsUrl u
    → host_port (port_and_path u end) ≡ some (length u.digits + 1, port_value u.digits)
unfolding host_port parse_port is_digit
host_port-url u end p =
    rw
      (
        port_from-append 0 u.digits (47 ∷ (u.path ++ end)) p.port_digits refl,
        length_not_zero u.digits p.has_port,
      )
      (ap (λ n. some (length u.digits + 1, n)) (port_from-decimal 0 0 u.digits refl p.port_digits))

host_text :
    (u : UrlParts) (end : List ℕ)
    → take (length u.host + (length u.digits + 1)) (u.host ++ port_and_path u end)
      ≡ u.host ++ (58 ∷ u.digits)
host_text u end =
    let front = u.host ++ (58 ∷ u.digits) in
    ap (take (length u.host + (length u.digits + 1)))
      (sym (append_assoc u.host (58 ∷ u.digits) (47 ∷ (u.path ++ end))))
    ∙ take-append_eq (length u.host + (length u.digits + 1)) front (47 ∷ (u.path ++ end))
        (grind (arith, length-append u.host (58 ∷ u.digits)))

behind_host_rest :
    (u : UrlParts) (end : List ℕ)
    → drop (length u.host + (length u.digits + 1)) (u.host ++ port_and_path u end)
      ≡ 47 ∷ (u.path ++ end)
behind_host_rest u end =
    let front = u.host ++ (58 ∷ u.digits) in
    ap (drop (length u.host + (length u.digits + 1)))
      (sym (append_assoc u.host (58 ∷ u.digits) (47 ∷ (u.path ++ end))))
    ∙ drop-append_eq (length u.host + (length u.digits + 1)) front (47 ∷ (u.path ++ end))
        (grind (arith, length-append u.host (58 ∷ u.digits)))

parse_hostport-url :
    (u : UrlParts) (end : List ℕ) (resolve : List ℕ → Option ℕ) (address : ℕ) (out : HostPort)
    → IsUrl u
    → resolve u.host ≡ some address
    → parse_hostport resolve true (u.host ++ port_and_path u end) out
      ≡ (pos (length u.host + (length u.digits + 1)), host_of u address)
unfolding parse_hostport host_address is_host_char
parse_hostport-url u end resolve address out p r =
    rw
      (
        parse_hostport,
        count_while-append is_host_char u.host (port_and_path u end) p.host_chars refl,
        drop-append_eq (length u.host) u.host (port_and_path u end) refl,
        host_port-url u end p,
        count_while-append is_host_char u.host (port_and_path u end) p.host_chars refl,
        take-append_eq (length u.host) u.host (port_and_path u end) refl,
        r,
        host_text u end,
      )
      refl

pub uri_path-end :
    (out : Uri) (path end : List ℕ)
    → All (λ c. (is_unreserved c || is_reserved c) ≡ true) path
    → ends_path end ≡ true
    → uri_path out (47 ∷ (path ++ end))
      ≡ (pos 1, record out { pathquery = 47 ∷ path; path_type = PathType.abs_path; fragment = [] })
unfolding uri_path parse_uric
uri_path-end out path [] h e =
    let whole = 47 ∷ path in
    rw
      (
        uric_count-append whole [] (unfold is_reserved in_set in refl, h) refl,
        take-append_eq (length whole) whole [] refl,
        drop-append_eq (length whole) whole [] refl,
      )
      refl
uri_path-end out path (c ∷ end) h e =
    let whole = 47 ∷ path in
    let no_fragment : (c == 35) ≡ false = ground (arith, e) in
    rw
      (
        uric_count-append whole (c ∷ end) (unfold is_reserved in_set in refl, h) e,
        take-append_eq (length whole) whole (c ∷ end) refl,
        drop-append_eq (length whole) whole (c ∷ end) refl,
        no_fragment,
      )
      refl

behind_scheme_rest :
    (u : UrlParts) (end : List ℕ)
    → drop (length (u.first ∷ u.more) + 1) (url_text u end)
      ≡ 47 ∷ 47 ∷ (u.host ++ port_and_path u end)
behind_scheme_rest u end =
    let scheme = u.first ∷ u.more in
    let rest = 47 ∷ 47 ∷ (u.host ++ port_and_path u end) in
    ap (drop (length scheme + 1)) (sym (append_assoc scheme (58 ∷ []) rest))
    ∙ drop-append_eq (length scheme + 1) (scheme ++ (58 ∷ [])) rest
        (grind (arith, length-append scheme (58 ∷ [])))

-- `parse_uri` on `scheme://host:port/path`, where every part consists of bytes that it may have, the
-- port has a digit and the name of the host is found, and where the path ends with the text or before a
-- byte that is none of a path: it succeeds with the parts, an absolute path and
-- no fragment, and the port is the value of its digits modulo 2^16.
pub parse_uri-url :
    (u : UrlParts) (end : List ℕ) (resolve : List ℕ → Option ℕ) (address : ℕ) (out : Uri)
    → IsUrl u
    → resolve u.host ≡ some address
    → ends_path end ≡ true
    → parse_uri resolve true (url_text u end) out ≡ (
      pos 1,
      record {
        type = UriType.absolute;
        scheme = u.first ∷ u.more;
        path_type = PathType.abs_path;
        pathquery = 47 ∷ u.path;
        fragment = [];
        hostport = host_of u address;
      },
    )
unfolding parse_uri behind_scheme uri_host behind_host
parse_uri-url u end resolve address out p r e =
    let scheme = u.first ∷ u.more in
    let begun : Uri = record out {
      type = UriType.absolute;
      scheme = scheme;
      path_type = PathType.opaque_part;
    } in
    ap (λ s. behind_scheme resolve true out s (url_text u end)) (parse_scheme-url u end p)
    ∙ rw (length_not_zero scheme (λ q. grind (arith, q)), behind_scheme_rest u end)
        (ap (λ h. behind_host begun h (u.host ++ port_and_path u end))
            (parse_hostport-url u end resolve address out.hostport p r)
          ∙ rw (behind_host_rest u end) (
              uri_path-end (record begun { hostport = host_of u address }) u.path end p.path_chars
                e))
