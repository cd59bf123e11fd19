-- ===== src/Gena/Callbacks.antt =====
-- src/gena/gena_server.c: `createURL_list`, which reads the URLs of the header CALLBACK in two passes.
-- What `parse_uri` finds outside may differ from pass to pass: a pass has its own `gethostbyname` and
-- the outcome of its `malloc`.
pub mod Trip
mod Tests
use upnpsdk.Prelude.{
  ℕ, zero, suc, Bool, true, false, not, ◌&&◌, Option, none, some, List, [], ◌∷◌, ◌++◌,
  if◌then◌else◌, length, ◌==◌,
}
use upnpsdk.Prelude.Int.{ℤ, pos, eqb_ℤ}
use upnpsdk.Codes.{Status, rc}
use upnpsdk.Http.Uri.{Uri, parse_uri}
use upnpsdk.ServiceTable.{UrlList}

pub record Outside : Type 0 where
  pub resolve : List ℕ → Option ℕ
  pub malloc_ok : Bool

-- Whether a URL is taken to begin behind the byte `c`, with these bytes of the token behind it.
abbrev pub opens : ℕ → List ℕ → Bool
opens c rest = c == b'<' && not (length rest == 0)

-- What `parse_uri` makes of it counts as a URL with a host.
abbrev pub has_host : ℤ × Uri → Bool
has_host (result, u) = eqb_ℤ result (pos 1) && not (length u.hostport.text == 0)

-- The first pass. `parse_uri` gets two bytes more than the token has, `beyond`; `temp` is the variable
-- that it fills. `none` is UPNP_E_OUTOF_MEMORY.
unfoldable pub count_urls : Outside → List ℕ → Uri → List ℕ → Option ℕ
unfolding parse_uri
count_urls o beyond temp [] = some 0
count_urls o beyond temp (c ∷ rest) =
    let parsed = parse_uri o.resolve o.malloc_ok (rest ++ beyond) temp in
    let after = count_urls o beyond (if opens c rest then parsed.1 else temp) rest in
    if not (opens c rest)
    then after
    else if has_host parsed
    then elim after [ none ↦ none | some n ↦ some (suc n) ]
    else if eqb_ℤ parsed.0 (rc Status.outof_memory)
    then none
    else after

-- How `createURL_list` ends: a URL is parsed into the place behind the last of the block, the memory is
-- short, or the list is made.
pub data Made (A : Type 0) : Type 0 where
  overruns : Made A
  no_memory : Made A
  made : A → Made A

unfoldable pub one_more : Uri → Made (List Uri) → Made (List Uri)
one_more u overruns = overruns
one_more u no_memory = no_memory
one_more u (made us) = made (u ∷ us)

-- The second pass, with room for so many URLs; `slot` is what stands in the next place.
unfoldable pub fill_urls : Outside → List ℕ → ℕ → (ℕ → Uri) → Uri → List ℕ → Made (List Uri)
unfolding parse_uri one_more
fill_urls o beyond room fresh slot [] = made []
fill_urls o beyond zero fresh slot (c ∷ rest) =
    let after = fill_urls o beyond zero fresh slot rest in if opens c rest then overruns else after
fill_urls o beyond (suc room) fresh slot (c ∷ rest) =
    let parsed = parse_uri o.resolve o.malloc_ok (rest ++ beyond) slot in
    let next = fill_urls o beyond room fresh (fresh room) rest in
    let again =
      fill_urls o beyond (suc room) fresh (if opens c rest then parsed.1 else slot) rest in
    if not (opens c rest)
    then again
    else if has_host parsed
    then one_more parsed.1 next
    else if eqb_ℤ parsed.0 (rc Status.outof_memory)
    then no_memory
    else again

-- With what the first pass returns: `temp` is the variable of the first pass, `fresh` says what the
-- block for the URLs holds, and `behind` are the terminator and the byte behind the block of the copy.
unfoldable pub filled : Outside → List ℕ → (ℕ → Uri) → Bool → List ℕ → Option ℕ → Made UrlList
unfolding fill_urls
filled o behind fresh malloc_ok text none = no_memory
filled o behind fresh malloc_ok text (some room) =
    let urls : Made UrlList = elim (fill_urls o behind room fresh (fresh room) text) [
      | overruns ↦ overruns
      | no_memory ↦ no_memory
      | made us ↦ made (record { urls = text; parsed_urls = us })
    ] in
    if malloc_ok then urls else no_memory

unfoldable pub create_url_list :
    Outside → Outside → List ℕ → List ℕ → Uri → (ℕ → Uri) → Bool → List ℕ → Made UrlList
unfolding count_urls filled
create_url_list first second beyond behind temp fresh malloc_ok text =
    filled second behind fresh malloc_ok text (count_urls first beyond temp text)
