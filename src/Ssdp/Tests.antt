-- ===== src/Ssdp/Tests.antt =====
-- The SSDP theorems at concrete inputs, and a whole message.
use upnpsdk.Prelude.{ℕ, ◌≡◌, refl, some, none, List, [], ◌∷◌, ◌++◌, arith, bytes}
use upnpsdk.Prelude.Int.{pos}
use upnpsdk.Prelude.Search.{find_str, has, eq_nocase, atoi}
use upnpsdk.Ssdp.Event.{notify, search, device, return_ok, e_http_syntex, initial_event, str_tok}
use upnpsdk.Ssdp.StartLine.{check_hdr, start_line, check_star}
use upnpsdk.Ssdp.Names.{request_type_header}
use upnpsdk.Ssdp.Headers.{fun_list, host, man_header, max_delay}
use upnpsdk.Ssdp.Analyze.{
  analyze_command, analyze_lines, header_lines, header_line, dispatch, split_lines,
}
use upnpsdk.Ssdp.Verdict.{
  joined, start_lines, line_verdict, check_hdr-joined, analyze_accepts_garbage,
}
use upnpsdk.Ssdp.Lines.{message, analyze-message, analyze-too_many_lines}
use upnpsdk.Ssdp.Values.{header_line-copied}

-- A search request, as a control point sends it.
search_request :
    analyze_command
      (some (
        bytes
          "M-SEARCH * HTTP/1.1\r\nHOST:239.255.255.250:1900\r\nMAN:\"ssdp:discover\"\r\nMX:3\r\nST:uuid:tv\r\n\r\n"))
      initial_event
    ≡ some (
      pos 1,
      record initial_event {
        cmd = search;
        request_type = device;
        mx = pos 3;
        udn = bytes "uuid:tv";
        host_addr = bytes "239.255.255.250:1900";
        man = bytes "\"ssdp:discover\"";
      },
    )
unfolding analyze_command analyze_lines header_lines header_line dispatch split_lines check_hdr
    start_line check_star str_tok find_str has eq_nocase atoi fun_list host man_header max_delay
    request_type_header
search_request = refl

notify_line :
    check_hdr (bytes "NOTIFY * HTTP/1.1") initial_event
    ≡ some (pos 1, record initial_event { cmd = notify })
unfolding check_hdr start_line check_star str_tok find_str has
notify_line = refl

check_hdr-joined_example :
    check_hdr (joined (bytes "NOTIFY") (bytes "*" ∷ bytes "HTTP/1.1" ∷ [])) initial_event
    ≡ line_verdict start_lines (bytes "NOTIFY") (bytes "*" ∷ bytes "HTTP/1.1" ∷ []) initial_event
unfolding joined
check_hdr-joined_example =
    check_hdr-joined (bytes "NOTIFY") (bytes "*" ∷ bytes "HTTP/1.1" ∷ []) initial_event
      (omega arith) (omega arith, (omega arith, tt)) (omega arith)

analyze_accepts_garbage_example :
    analyze_command (some (bytes "GET")) initial_event
    ≡ some (pos 1, record initial_event { err_code = e_http_syntex })
unfolding has
analyze_accepts_garbage_example =
    analyze_accepts_garbage b'G' (bytes "ET") initial_event (omega arith) (omega arith)
      (omega arith) refl refl refl

analyze-message_example :
    analyze_command
      (some (message (bytes "NOTIFY * HTTP/1.1") (bytes "NTS: ssdp:alive" ∷ [] ∷ [])))
      initial_event
    ≡ analyze_lines (bytes "NOTIFY * HTTP/1.1" ∷ bytes "NTS: ssdp:alive" ∷ [] ∷ []) initial_event
analyze-message_example =
    analyze-message b'N' (bytes "OTIFY * HTTP/1.1") (bytes "NTS: ssdp:alive" ∷ [] ∷ [])
      initial_event (omega arith) (omega arith) (omega arith) (omega arith) (omega arith)

abbrev twelve_empty : List (List ℕ)
twelve_empty = [] ∷ [] ∷ [] ∷ [] ∷ [] ∷ [] ∷ [] ∷ [] ∷ [] ∷ [] ∷ [] ∷ [] ∷ []

analyze-too_many_lines_example :
    analyze_command (some (message (bytes "NOTIFY * HTTP/1.1") twelve_empty)) initial_event ≡ none
analyze-too_many_lines_example =
    analyze-too_many_lines b'N' (bytes "OTIFY * HTTP/1.1") twelve_empty initial_event (omega arith)
      (omega arith) (omega arith)

host_stored :
    (header_line (bytes "HOST" ++ (58 ∷ bytes "239.255.255.250")) (pos 1) initial_event
      ≡ return_ok (record initial_event { host_addr = bytes "239.255.255.250" }))
host_stored =
    (header_line-copied (bytes "239.255.255.250") (pos 1) initial_event (omega arith)
      (omega arith)).0
