-- ===== src/Ssdp/StartLine.antt =====
-- `CheckHdr` of src/ssdp/ssdpparser.c: the start line.
use upnpsdk.Prelude.{ℕ, not, Option, some, List, if◌then◌else◌, ◌>>=◌, bytes}
use upnpsdk.Prelude.Search.{has}
use upnpsdk.Ssdp.Event.{
  Cmd, ok, notify, Event, command_len, Parsed, return_ok, syntax_error, copy_to, str_tok,
}

-- `CheckHdr` behind the method: a token with "*", then one with "HTTP/1.1".
unfoldable pub check_star : Cmd → Option (List ℕ) → Event → Parsed
check_star c rest e =
    let (t2, rest2) = str_tok rest (bytes " ") in
    let (t3, rest3) = str_tok rest2 (bytes " ") in
    t2 >>= λ star.
    if not (has star (bytes "*"))
    then syntax_error e
    else t3 >>= λ version.
        if has version (bytes "HTTP/1.1") then return_ok (record e { cmd = c }) else syntax_error e

-- `CheckHdr` behind "HTTP/1.1": a token with "200", then one with "OK".
unfoldable pub check_status : Option (List ℕ) → Event → Parsed
check_status rest e =
    let (t2, rest2) = str_tok rest (bytes " ") in
    let (t3, rest3) = str_tok rest2 (bytes " ") in
    t2 >>= λ code.
    if not (has code (bytes "200"))
    then syntax_error e
    else t3 >>= λ reason.
        if has reason (bytes "OK") then return_ok (record e { cmd = ok }) else syntax_error e

-- The test of the method.
unfoldable pub start_line : List ℕ → Option (List ℕ) → Event → Parsed
start_line method rest e =
    if has method (bytes "M-SEARCH")
    then check_star Cmd.search rest e
    else if has method (bytes "NOTIFY")
    then check_star notify rest e
    else if has method (bytes "HTTP/1.1")
    then check_status rest e
    else syntax_error e

unfoldable pub check_hdr : List ℕ → Event → Parsed
check_hdr line e = copy_to command_len line >>= λ tmp.
    let (t1, rest) = str_tok (some tmp) (bytes " ") in t1 >>= λ method. start_line method rest e
