-- ===== src/Http/RequestTrip.antt =====
-- What `parse_http_request` of src/genlib/http_client/http_client.c reads from a request that was put
-- together from its parts.
use upnpsdk.Prelude.{ℕ, ◌≡◌, ◌≢◌, true, ◌||◌, List, [], ◌∷◌, ◌++◌, All, ◌==◌}
use upnpsdk.Http.Text.{is_blank, is_token_char}
use upnpsdk.Http.Uri.{UriType, PathType, Uri, no_host, is_unreserved, is_reserved}
use upnpsdk.Http.Message.{Message, RequestLine}
use upnpsdk.Http.Request.{version}
use upnpsdk.Http.Lines.{is_stop}

-- The parts of a request line: the path stands without its slash.
pub record RequestParts : Type 0 where
  pub method : List ℕ
  pub path : List ℕ
  pub version : List ℕ

-- The request line, in front of the rest.
abbrev pub request_text : RequestParts → List ℕ → List ℕ
request_text p rest = p.method ++ (32 ∷ 47 ∷ (p.path ++ (32 ∷ (p.version ++ (13 ∷ 10 ∷ rest)))))

-- A method that is a token, a path of bytes that it may have and that does not begin with a second
-- slash, and a version without CR that does not begin with a blank.
pub record IsRequest (p : RequestParts) : Type 0 where
  pub has_method : p.method ≢ []
  pub method_token : All (λ c. is_token_char c ≡ true) p.method
  pub path_chars : All (λ c. (is_unreserved c || is_reserved c) ≡ true) p.path
  pub no_host : is_stop (λ c. c == 47) p.path ≡ true
  pub no_cr : All (λ c. c ≢ 13) p.version
  pub no_blank : is_stop is_blank p.version ≡ true

-- The path as a URI; what `uri_type` held before does not matter.
abbrev pub path_uri : List ℕ → Uri
path_uri path = record {
  type = UriType.relative;
  scheme = [];
  path_type = PathType.abs_path;
  pathquery = 47 ∷ path;
  fragment = [];
  hostport = no_host;
}

-- The request line as the parts give it.
abbrev pub request_of : RequestParts → RequestLine → RequestLine
request_of p out = record {
  method = p.method;
  request_uri = path_uri p.path;
  http_version = p.version;
}
