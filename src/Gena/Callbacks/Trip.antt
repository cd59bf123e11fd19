-- ===== src/Gena/Callbacks/Trip.antt =====
-- What `createURL_list` of src/gena/gena_server.c reads from a header CALLBACK that holds URLs.
use upnpsdk.Prelude.{
  ℕ, zero, suc, ◌≡◌, refl, sym, ap, ◌∙◌, Bool, true, false, ◌||◌, Option, none, some, List, [], ◌∷◌,
  ◌++◌, map, All, arith, length, length-append, ◌==◌, Bool-cases, inl, inr, append_assoc,
}
use upnpsdk.Prelude.Int.{ℤ, pos}
use upnpsdk.Http.Text.{in_set}
use upnpsdk.Http.Uri.{
  Uri, UriType, PathType, parse_uri, is_alpha, is_alnum, is_digit, is_host_char, is_unreserved,
  is_reserved, is_mark,
}
use upnpsdk.Http.Absolute.{UrlParts, IsUrl, url_text, host_of, is_scheme_char, parse_uri-url}
use upnpsdk.Gena.Callbacks.{
  Outside, has_host, count_urls, fill_urls, Made, overruns, made, one_more, filled, create_url_list,
}

-- <URL><URL>..., and a rest.
pub callback_text : List UrlParts → List ℕ → List ℕ
callback_text [] rest = rest
callback_text (u ∷ us) rest = b'<' ∷ url_text u (b'>' ∷ callback_text us rest)

-- What `parse_uri` makes of a URL whose host has the address.
abbrev pub parsed_of : (List ℕ → ℕ) → UrlParts → Uri
parsed_of address u = record {
  type = UriType.absolute;
  scheme = u.first ∷ u.more;
  path_type = PathType.abs_path;
  pathquery = 47 ∷ u.path;
  fragment = [];
  hostport = host_of u (address u.host);
}

abbrev IsInside : ℕ → Type 0
IsInside c = (c == 60) ≡ false

IsInside-append : (xs ys : List ℕ) → All IsInside xs → All IsInside ys → All IsInside (xs ++ ys)
IsInside-append [] ys h k = k
IsInside-append (x ∷ xs) ys h k = (h.0, IsInside-append xs ys h.1 k)

inside : (f : ℕ → Bool) (x : ℕ) → f 60 ≡ false → f x ≡ true → IsInside x
inside f x b h = elim (Bool-cases (x == 60)) [
  | inl e ↦ absurd (let q : x ≡ 60 = ground (arith, e) in let r = sym h ∙ ap f q ∙ b in cc)
  | inr e ↦ e
]

-- A text of bytes that a test lets through, which lets no bracket through.
tested-IsInside :
    (f : ℕ → Bool) (xs : List ℕ) → f 60 ≡ false → All (λ c. f c ≡ true) xs → All IsInside xs
tested-IsInside f [] b h = tt
tested-IsInside f (x ∷ xs) b h = (inside f x b h.0, tested-IsInside f xs b h.1)

-- A URL with its closing bracket.
abbrev body : UrlParts → List ℕ
body u =
    (u.first ∷ u.more)
    ++ (58 ∷ 47 ∷ 47 ∷ (u.host ++ (58 ∷ (u.digits ++ (47 ∷ (u.path ++ (62 ∷ [])))))))

body_text : (u : UrlParts) (rest : List ℕ) → url_text u (62 ∷ rest) ≡ body u ++ rest
body_text u rest = simp append_assoc refl

body-IsInside : (u : UrlParts) → IsUrl u → All IsInside (body u)
unfolding is_alpha is_alnum is_digit is_host_char is_unreserved is_reserved is_mark in_set
body-IsInside u p =
    let path =
      IsInside-append u.path (62 ∷ [])
        (tested-IsInside (λ c. is_unreserved c || is_reserved c) u.path refl p.path_chars)
        (refl, tt) in
    let port =
      IsInside-append u.digits (47 ∷ (u.path ++ (62 ∷ [])))
        (tested-IsInside is_digit u.digits refl p.port_digits) (refl, path) in
    let host =
      IsInside-append u.host (58 ∷ (u.digits ++ (47 ∷ (u.path ++ (62 ∷ [])))))
        (tested-IsInside is_host_char u.host refl p.host_chars) (refl, port) in
    (
      inside is_alpha u.first refl p.alpha,
      IsInside-append u.more _ (tested-IsInside is_scheme_char u.more refl p.scheme_chars)
          (refl, (refl, (refl, host))),
    )

count_over :
    (o : Outside) (beyond : List ℕ) (temp : Uri) (xs rest : List ℕ)
    → All IsInside xs
    → count_urls o beyond temp (xs ++ rest) ≡ count_urls o beyond temp rest
unfolding count_urls
count_over o beyond temp [] rest h = refl
count_over o beyond temp (c ∷ xs) rest h = rw h.0 (count_over o beyond temp xs rest h.1)

fill_over :
    (o : Outside) (beyond : List ℕ) (room : ℕ) (fresh : ℕ → Uri) (slot : Uri) (xs rest : List ℕ)
    → All IsInside xs
    → fill_urls o beyond room fresh slot (xs ++ rest) ≡ fill_urls o beyond room fresh slot rest
unfolding fill_urls
fill_over o beyond room fresh slot [] rest h = refl
fill_over o beyond zero fresh slot (c ∷ xs) rest h =
    rw h.0 (fill_over o beyond zero fresh slot xs rest h.1)
fill_over o beyond (suc room) fresh slot (c ∷ xs) rest h =
    rw h.0 (fill_over o beyond (suc room) fresh slot xs rest h.1)

-- The text of a URL, and of what is behind it, with more behind that.
url_text-append :
    (u : UrlParts) (rest beyond : List ℕ)
    → url_text u (62 ∷ rest) ++ beyond ≡ url_text u (62 ∷ (rest ++ beyond))
url_text-append u rest beyond =
    ap (λ l. l ++ beyond) (body_text u rest)
    ∙ append_assoc (body u) rest beyond
    ∙ sym (body_text u (rest ++ beyond))

has_host-url : (u : UrlParts) (address : List ℕ → ℕ) → has_host (pos 1, parsed_of address u) ≡ true
has_host-url u address = rw (length-append u.host (58 ∷ u.digits)) (ground arith)

-- What is asked of a URL: its parts are well formed, and the name of its host is found.
abbrev pub IsFound : Outside → (List ℕ → ℕ) → UrlParts → Type 0
IsFound o address u = IsUrl u × (o.malloc_ok ≡ true) × (o.resolve u.host ≡ some (address u.host))

parse_at :
    (o : Outside) (address : List ℕ → ℕ) (u : UrlParts) (rest beyond : List ℕ) (out : Uri)
    → IsFound o address u
    → parse_uri o.resolve o.malloc_ok (url_text u (62 ∷ rest) ++ beyond) out
      ≡ (pos 1, parsed_of address u)
unfolding is_unreserved is_reserved is_alnum is_mark in_set
parse_at o address u rest beyond out (p, m, r) =
    rw (m, url_text-append u rest beyond)
      (parse_uri-url u (62 ∷ (rest ++ beyond)) o.resolve (address u.host) out p r refl)

-- A round of the first pass at a bracket.
count_step :
    (o : Outside) (rest beyond : List ℕ) (temp : Uri) (parsed : ℤ × Uri)
    → (length rest == 0) ≡ false
    → parse_uri o.resolve o.malloc_ok (rest ++ beyond) temp ≡ parsed
    → has_host parsed ≡ true
    → count_urls o beyond temp (60 ∷ rest)
      ≡ elim (count_urls o beyond parsed.1 rest) [ none ↦ none | some n ↦ some (suc n) ]
unfolding count_urls
count_step o rest beyond temp parsed z p h = rw (p, h, z) refl

fill_step :
    (o : Outside) (rest beyond : List ℕ) (room : ℕ) (fresh : ℕ → Uri) (slot : Uri)
    (parsed : ℤ × Uri)
    → (length rest == 0) ≡ false
    → parse_uri o.resolve o.malloc_ok (rest ++ beyond) slot ≡ parsed
    → has_host parsed ≡ true
    → fill_urls o beyond (suc room) fresh slot (60 ∷ rest)
      ≡ one_more parsed.1 (fill_urls o beyond room fresh (fresh room) rest)
unfolding fill_urls
fill_step o rest beyond room fresh slot parsed z p h = rw (p, h, z) refl

not_empty : {A : Type 0} (x : A) (l : List A) → (length (x ∷ l) == 0) ≡ false
not_empty x l = ground arith

count-url :
    (o : Outside) (address : List ℕ → ℕ) (u : UrlParts) (rest beyond : List ℕ) (temp : Uri)
    → IsFound o address u
    → count_urls o beyond temp (60 ∷ url_text u (62 ∷ rest))
      ≡ elim (count_urls o beyond (parsed_of address u) rest) [
        | none ↦ none
        | some n ↦ some (suc n)
      ]
count-url o address u rest beyond temp f =
    count_step o (url_text u (62 ∷ rest)) beyond temp (pos 1, parsed_of address u)
      (not_empty u.first _) (parse_at o address u rest beyond temp f) (has_host-url u address)
    ∙ ap (λ r. elim r as (λ x. Option ℕ) [ none ↦ none | some n ↦ some (suc n) ])
        (ap (count_urls o beyond (parsed_of address u)) (body_text u rest)
          ∙ count_over o beyond (parsed_of address u) (body u) rest (body-IsInside u f.0))

count-callbacks :
    (o : Outside) (address : List ℕ → ℕ) (beyond : List ℕ) (temp : Uri) (us : List UrlParts)
    (rest : List ℕ)
    → All (IsFound o address) us
    → ((temp : Uri) → count_urls o beyond temp rest ≡ some 0)
    → count_urls o beyond temp (callback_text us rest) ≡ some (length us)
unfolding callback_text
count-callbacks o address beyond temp [] rest h k = k temp
count-callbacks o address beyond temp (u ∷ us) rest h k =
    count-url o address u (callback_text us rest) beyond temp h.0
    ∙ rw (count-callbacks o address beyond (parsed_of address u) us rest h.1 k) refl

fill-url :
    (o : Outside) (address : List ℕ → ℕ) (u : UrlParts) (rest beyond : List ℕ) (room : ℕ)
    (fresh : ℕ → Uri) (slot : Uri)
    → IsFound o address u
    → fill_urls o beyond (suc room) fresh slot (60 ∷ url_text u (62 ∷ rest))
      ≡ one_more (parsed_of address u) (fill_urls o beyond room fresh (fresh room) rest)
fill-url o address u rest beyond room fresh slot f =
    fill_step o (url_text u (62 ∷ rest)) beyond room fresh slot (pos 1, parsed_of address u)
      (not_empty u.first _) (parse_at o address u rest beyond slot f) (has_host-url u address)
    ∙ ap (one_more (parsed_of address u)) (
        ap (fill_urls o beyond room fresh (fresh room)) (body_text u rest)
        ∙ fill_over o beyond room fresh (fresh room) (body u) rest (body-IsInside u f.0))

-- A bracket where there is no room.
fill_full :
    (o : Outside) (beyond : List ℕ) (fresh : ℕ → Uri) (slot : Uri) (c : ℕ) (rest : List ℕ)
    → fill_urls o beyond zero fresh slot (60 ∷ c ∷ rest) ≡ overruns
unfolding fill_urls
fill_full o beyond fresh slot c rest = rw (not_empty c rest) refl

-- The URLs of a list before those that a pass makes.
prepend : List Uri → Made (List Uri) → Made (List Uri)
prepend [] r = r
prepend (u ∷ us) r = one_more u (prepend us r)

prepend-made : (us : List Uri) → prepend us (made []) ≡ made us
unfolding prepend one_more
prepend-made [] = refl
prepend-made (u ∷ us) = ap (one_more u) (prepend-made us)

prepend-overruns : (us : List Uri) → prepend us overruns ≡ overruns
unfolding prepend one_more
prepend-overruns [] = refl
prepend-overruns (u ∷ us) = ap (one_more u) (prepend-overruns us)

fill-callbacks :
    (o : Outside) (address : List ℕ → ℕ) (beyond : List ℕ) (fresh : ℕ → Uri) (slot : Uri)
    (us : List UrlParts) (rest : List ℕ) (r : Made (List Uri))
    → All (IsFound o address) us
    → ((slot : Uri) → fill_urls o beyond zero fresh slot rest ≡ r)
    → fill_urls o beyond (length us) fresh slot (callback_text us rest)
      ≡ prepend (map (parsed_of address) us) r
unfolding callback_text prepend
fill-callbacks o address beyond fresh slot [] rest r h k = k slot
fill-callbacks o address beyond fresh slot (u ∷ us) rest r h k =
    fill-url o address u (callback_text us rest) beyond (length us) fresh slot h.0
    ∙ ap (one_more (parsed_of address u))
        (fill-callbacks o address beyond fresh (fresh (length us)) us rest r h.1 k)

-- `createURL_list` on URLs in angle brackets, each well formed and with a host whose name is found in
-- both passes, makes the list of what they stand for, in their order, whatever is behind the token and
-- in the new blocks.
pub create_url_list-callbacks :
    (first second : Outside) (address : List ℕ → ℕ) (beyond behind : List ℕ) (temp : Uri)
    (fresh : ℕ → Uri) (us : List UrlParts)
    → All (IsFound first address) us
    → All (IsFound second address) us
    → create_url_list first second beyond behind temp fresh true (callback_text us [])
      ≡ made (record { urls = callback_text us []; parsed_urls = map (parsed_of address) us })
unfolding create_url_list filled count_urls fill_urls
create_url_list-callbacks first second address beyond behind temp fresh us h k =
    let n = count-callbacks first address beyond temp us [] h (λ temp. refl) in
    let l =
      fill-callbacks second address behind fresh (fresh (length us)) us [] (made []) k
        (λ slot. refl)
      ∙ prepend-made (map (parsed_of address) us) in
    ap (filled second behind fresh true (callback_text us [])) n ∙ rw (filled, l) refl

-- With one more bracket behind such URLs, where no URL with a host begins, `createURL_list` parses into
-- the place behind the last of the block that it has allocated.
pub create_url_list-overruns :
    (first second : Outside) (address : List ℕ → ℕ) (beyond behind : List ℕ) (temp : Uri)
    (fresh : ℕ → Uri) (us : List UrlParts) (c : ℕ) (rest : List ℕ)
    → All (IsFound first address) us
    → All (IsFound second address) us
    → ((temp : Uri) → count_urls first beyond temp (60 ∷ c ∷ rest) ≡ some 0)
    → create_url_list first second beyond behind temp fresh true (callback_text us (60 ∷ c ∷ rest))
      ≡ overruns
unfolding create_url_list filled
create_url_list-overruns first second address beyond behind temp fresh us c rest h k e =
    let text = 60 ∷ c ∷ rest in
    let n = count-callbacks first address beyond temp us text h e in
    let l =
      fill-callbacks second address behind fresh (fresh (length us)) us text overruns k
        (λ slot. fill_full second behind fresh slot c rest)
      ∙ prepend-overruns (map (parsed_of address) us) in
    ap (filled second behind fresh true (callback_text us text)) n ∙ rw (filled, l) refl
