-- ===== src/Http/Tests.antt =====
-- The theorems on src/genlib/http_client/http_client.c at a response, and runs of its functions.
use upnpsdk.Prelude.{◌≡◌, refl, true, some, [], ◌∷◌, arith, bytes}
use upnpsdk.Prelude.Int.{pos}
use upnpsdk.Codes.{Status}
use upnpsdk.Http.Text.{in_set, is_token_char, parse_not_lws, parse_lws, parse_http_line}
use upnpsdk.Http.Message.{
  RequestLine, header_loop, StatusLine, Header, Message, parse_http_response, parse_status_line,
  search_for_header,
}
use upnpsdk.Http.Uri.{
  is_reserved, is_mark, UriType, PathType, Uri, no_host, parse_uri, is_alpha, is_alnum, is_digit,
  is_host_char, is_unreserved,
}
use upnpsdk.Http.RequestTrip.{RequestParts}
use upnpsdk.Http.Absolute.{UrlParts, IsUrl, url_text, host_of, parse_uri-url}
use upnpsdk.Http.Bounded.{HasMemory, header_loop-HasMemory}
use upnpsdk.Http.RoundTrip.{
  IsPlain, IsPlainStatus, header_text, status_text, parse_http_response-text,
}

abbrev ok_line : StatusLine
ok_line = record {
  http_version = bytes "HTTP/1.1";
  status_code = bytes "200";
  reason_phrase = bytes "OK";
}

abbrev sid : Header
sid = record { header = bytes "SID"; value = bytes "uuid:1" }

abbrev empty_uri : Uri
empty_uri = record {
  type = UriType.relative;
  scheme = [];
  path_type = PathType.rel_path;
  pathquery = [];
  fragment = [];
  hostport = no_host;
}

abbrev no_request : RequestLine
no_request = record { method = []; request_uri = empty_uri; http_version = [] }

abbrev nothing : Message
nothing = record {
  status = ok_line;
  request = no_request;
  header_list = [];
  content = [];
  content_size = pos 0;
}

sid-IsPlain : IsPlain sid
unfolding is_token_char
sid-IsPlain = record {
  has_name = λ e. grind (arith, e);
  is_name = (refl, (refl, (refl, tt)));
  no_cr = (
    λ e. omega (arith, e),
    (
      λ e. omega (arith, e),
      (
        λ e. omega (arith, e),
        (λ e. omega (arith, e), (λ e. omega (arith, e), (λ e. omega (arith, e), tt))),
      ),
    ),
  );
  no_blank = refl;
  no_blank_end = refl;
}

ok_line-IsPlainStatus : IsPlainStatus ok_line
ok_line-IsPlainStatus = record {
  has_version = λ e. grind (arith, e);
  version_word = (refl, (refl, (refl, (refl, (refl, (refl, (refl, (refl, tt))))))));
  has_code = λ e. grind (arith, e);
  code_word = (refl, (refl, (refl, tt)));
  no_cr = (λ e. omega (arith, e), (λ e. omega (arith, e), tt));
  no_blank = refl;
}

parse_http_response-text_example :
    parse_http_response 1 (status_text ok_line (header_text (sid ∷ []) (bytes "body"))) nothing
    ≡ some (
      Status.success,
      record nothing { header_list = sid ∷ []; content = bytes "body"; content_size = pos 4 },
    )
parse_http_response-text_example =
    parse_http_response-text ok_line (sid ∷ []) (bytes "body") nothing ok_line-IsPlainStatus
      (sid-IsPlain, tt)

-- A status line without a phrase takes the next line into the code.
no_phrase : parse_status_line (bytes "HTTP/1.1 404\r\nDATE: x\r\n") ≡ (
  23,
  record {
    http_version = bytes "HTTP/1.1";
    status_code = bytes "404\r\nDATE:";
    reason_phrase = bytes "x";
  },
)
unfolding parse_status_line parse_not_lws parse_lws parse_http_line
no_phrase = refl

found : search_for_header (sid ∷ []) (bytes "sid") ≡ some (bytes "uuid:1")
unfolding search_for_header
found = refl

abbrev parts : UrlParts
parts = record {
  first = 104;
  more = bytes "ttp";
  host = bytes "tv";
  digits = bytes "80";
  path = bytes "d";
}

parts-IsUrl : IsUrl parts
unfolding is_alpha is_alnum is_digit is_host_char is_unreserved
parts-IsUrl = record {
  alpha = refl;
  scheme_chars = (refl, (refl, (refl, tt)));
  host_chars = (refl, (refl, tt));
  has_port = λ e. grind (arith, e);
  port_digits = (refl, (refl, tt));
  path_chars = (refl, tt);
}

parse_uri-url_example : parse_uri (λ name. some 7) true (url_text parts (62 ∷ [])) empty_uri ≡ (
  pos 1,
  record {
    type = UriType.absolute;
    scheme = bytes "http";
    path_type = PathType.abs_path;
    pathquery = bytes "/d";
    fragment = [];
    hostport = host_of parts 7;
  },
)
parse_uri-url_example =
    parse_uri-url parts (62 ∷ []) (λ name. some 7) 7 empty_uri parts-IsUrl refl
      (unfold is_unreserved is_reserved is_alnum is_mark in_set in refl)

header_loop-HasMemory_example : HasMemory (header_loop 7 (bytes "A: b\r\n"))
header_loop-HasMemory_example = header_loop-HasMemory 7 (bytes "A: b\r\n") (omega arith)

abbrev notify : RequestParts
notify = record { method = bytes "NOTIFY"; path = bytes "e"; version = bytes "HTTP/1.1" }
