-- ===== src/Gena/Callbacks/Tests.antt =====
-- The theorems on `createURL_list` of src/gena/gena_server.c at one URL.
use upnpsdk.Prelude.{◌≡◌, refl, true, some, [], ◌∷◌, arith, bytes, map}
use upnpsdk.Codes.{rc}
use upnpsdk.Http.Uri.{
  Uri, UriType, PathType, no_host, is_alpha, is_alnum, is_digit, is_host_char, is_unreserved,
  parse_uri,
}
use upnpsdk.Http.Absolute.{UrlParts, IsUrl}
use upnpsdk.Gena.Callbacks.{Outside, made, overruns, count_urls, create_url_list}
use upnpsdk.Gena.Callbacks.Trip.{
  callback_text, parsed_of, IsFound, create_url_list-callbacks, create_url_list-overruns,
}

abbrev empty_uri : Uri
empty_uri = record {
  type = UriType.relative;
  scheme = [];
  path_type = PathType.rel_path;
  pathquery = [];
  fragment = [];
  hostport = no_host;
}

abbrev parts : UrlParts
parts = record {
  first = 104;
  more = bytes "ttp";
  host = bytes "tv";
  digits = bytes "80";
  path = bytes "d";
}

abbrev outside : Outside
outside = record { resolve = λ name. some 7; malloc_ok = true }

parts-IsUrl : IsUrl parts
unfolding is_alpha is_alnum is_digit is_host_char is_unreserved
parts-IsUrl = record {
  alpha = refl;
  scheme_chars = (refl, (refl, (refl, tt)));
  host_chars = (refl, (refl, tt));
  has_port = λ e. grind (arith, e);
  port_digits = (refl, (refl, tt));
  path_chars = (refl, tt);
}

parts-IsFound : IsFound outside (λ name. 7) parts
parts-IsFound = (parts-IsUrl, refl, refl)

create_url_list-callbacks_example :
    create_url_list outside outside
      (bytes "\r\n")
      (0 ∷ 0 ∷ [])
      empty_uri
      (λ n. empty_uri)
      true
      (callback_text (parts ∷ []) [])
    ≡ made (record {
      urls = callback_text (parts ∷ []) [];
      parsed_urls = map (parsed_of (λ name. 7)) (parts ∷ []);
    })
create_url_list-callbacks_example =
    create_url_list-callbacks outside outside (λ name. 7) (bytes "\r\n") (0 ∷ 0 ∷ []) empty_uri
      (λ n. empty_uri) (parts ∷ []) (parts-IsFound, tt) (parts-IsFound, tt)

-- A path without a host is no URL that counts.
no_more : (temp : Uri) → count_urls outside (bytes "\r\n") temp (60 ∷ 47 ∷ 62 ∷ []) ≡ some 0
unfolding count_urls parse_uri rc
no_more temp = refl

create_url_list-overruns_example :
    create_url_list outside outside
      (bytes "\r\n")
      (0 ∷ 0 ∷ [])
      empty_uri
      (λ n. empty_uri)
      true
      (callback_text (parts ∷ []) (60 ∷ 47 ∷ 62 ∷ []))
    ≡ overruns
create_url_list-overruns_example =
    create_url_list-overruns outside outside (λ name. 7) (bytes "\r\n") (0 ∷ 0 ∷ []) empty_uri
      (λ n. empty_uri) (parts ∷ []) 47 (62 ∷ []) (parts-IsFound, tt) (parts-IsFound, tt) no_more
