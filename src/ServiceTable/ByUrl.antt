-- ===== src/ServiceTable/ByUrl.antt =====
-- The searches for a service by the path of a URL in src/genlib/service_table/service_table.c, with
-- `parse_uri` of src/genlib/http_client/http_client.c. `resolve` is `gethostbyname`.
use upnpsdk.Prelude.{ℕ, Bool, Option, none, some, List, [], ◌∷◌, if◌then◌else◌, str_eq}
use upnpsdk.Prelude.Int.{pos, eqb_ℤ}
use upnpsdk.Http.Uri.{Uri, parse_uri}
use upnpsdk.ServiceTable.{ServiceInfo, behind_one}

-- The loop: `parsed` is what `parsed_url` holds, and only a result of 0 counts as an error of
-- `parse_uri`.
unfoldable pub find_pathquery :
    (List ℕ → Option ℕ)
    → Bool
    → (ServiceInfo → Option (List ℕ))
    → List ℕ
    → Uri
    → List ServiceInfo
    → Option ℕ
find_pathquery resolve malloc_ok url wanted parsed [] = none
find_pathquery resolve malloc_ok url wanted parsed (s ∷ l) = elim (url s) [
  | none ↦ behind_one (find_pathquery resolve malloc_ok url wanted parsed l)
  | some text ↦
      let (result, parsed) = parse_uri resolve malloc_ok text parsed in
      let rest = find_pathquery resolve malloc_ok url wanted parsed l in
      if eqb_ℤ result (pos 0)
      then behind_one rest
      else if str_eq parsed.pathquery wanted
      then some 0
      else behind_one rest
]

-- `wanted` and `parsed` are what the two variables hold at first. The result is a position.
unfoldable pub find_service_url_path :
    (List ℕ → Option ℕ)
    → Bool
    → (ServiceInfo → Option (List ℕ))
    → Uri
    → Uri
    → List ServiceInfo
    → List ℕ
    → Option ℕ
unfolding find_pathquery
find_service_url_path resolve malloc_ok url wanted parsed l path =
    let (result, wanted) = parse_uri resolve malloc_ok path wanted in
    if eqb_ℤ result (pos 0)
    then none
    else find_pathquery resolve malloc_ok url wanted.pathquery parsed l

unfoldable pub find_service_event_url_path :
    (List ℕ → Option ℕ) → Bool → Uri → Uri → List ServiceInfo → List ℕ → Option ℕ
unfolding find_service_url_path
find_service_event_url_path resolve malloc_ok =
    find_service_url_path resolve malloc_ok (λ s. s.event_url)

unfoldable pub find_service_control_url_path :
    (List ℕ → Option ℕ) → Bool → Uri → Uri → List ServiceInfo → List ℕ → Option ℕ
unfolding find_service_url_path
find_service_control_url_path resolve malloc_ok =
    find_service_url_path resolve malloc_ok (λ s. s.control_url)
