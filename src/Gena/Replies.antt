-- ===== src/Gena/Replies.antt =====
-- The replies of inc/gena/gena.h, and `respondOK` of src/gena/gena_server.c with the time of a
-- subscription that it tells. The date, the name of the system and `sscanf` are the C library's.
use upnpsdk.Prelude.{ℕ, Bool, not, ◌&&◌, ◌||◌, Option, none, some, List, ◌++◌, if◌then◌else◌, bytes}
use upnpsdk.Prelude.Int.{ℤ, pos, negsuc, ◌+ℤ◌, ltb_ℤ, leb_ℤ, eqb_ℤ}
use upnpsdk.Prelude.Search.{starts_with}
use upnpsdk.Codes.{Status, rc}
use upnpsdk.Api.Handles.{HandleInfo}
use upnpsdk.Gena.Event.{decimal}

abbrev pub unable_memory : List ℕ
unable_memory = bytes "HTTP/1.1 500 Internal Server Error\r\n\r\n"

abbrev pub unable_service_unknown : List ℕ
unable_service_unknown = bytes "HTTP/1.1 404 Not Found\r\n\r\n"

abbrev pub not_implemented : List ℕ
not_implemented = bytes "HTTP/1.1 501 Not Implemented\r\n\r\n"

abbrev pub bad_request : List ℕ
bad_request = bytes "HTTP/1.1 400 Bad Request\r\n\r\n"

abbrev pub bad_callback : List ℕ
bad_callback = bytes "HTTP/1.1 412 Precondition Failed\r\n\r\n"

abbrev pub invalid_nt : List ℕ
invalid_nt = bad_callback

abbrev pub invalid_sid : List ℕ
invalid_sid = bad_callback

abbrev pub missing_sid : List ℕ
missing_sid = bad_callback

abbrev pub http_ok_crlf : List ℕ
http_ok_crlf = bytes "HTTP/1.1 200 OK\r\n\r\n"

abbrev pub http_ok : List ℕ
http_ok = bytes "HTTP/1.1 200 OK\r\n"

abbrev pub default_timeout : ℤ
default_timeout = pos 1801

-- What a request finds outside of the table: `scan` is `sscanf` with "Second-%d", if it reads a
-- number, and `stack` what the array of the identifier holds.
pub record Around : Type 0 where
  pub now : ℤ
  pub path_memory : Bool
  pub stack : List ℕ
  pub scan : List ℕ → Option ℤ
  pub reply_memory : Bool
  pub reply_sent : Bool
  pub date : List ℕ
  pub server : List ℕ

-- The text of `respondOK`; `date` and `server` are lines.
unfoldable pub ok_text : Around → ℤ → List ℕ → List ℕ
unfolding decimal
ok_text a time_out sid =
    let end =
      if leb_ℤ (pos 0) time_out
      then bytes "TIMEOUT: Second-" ++ (decimal time_out ++ bytes "\r\n\r\n")
      else bytes "TIMEOUT: Second-infinite\r\n\r\n" in
    http_ok ++ (a.date ++ (a.server ++ (bytes "SID: " ++ (sid ++ (bytes "\r\n" ++ end)))))

-- The result and the text sent.
unfoldable pub respond_ok : Around → ℤ → List ℕ → ℤ × List ℕ
unfolding ok_text
respond_ok a time_out sid =
    if not a.reply_memory
    then (rc Status.outof_memory, unable_memory)
    else (rc (if a.reply_sent then Status.success else Status.socket_write), ok_text a time_out sid)

-- The time that the header TIMEOUT asks for, -1 for no end.
unfoldable pub requested : Around → Option (List ℕ) → ℤ
requested a none = default_timeout
requested a (some value) = elim (a.scan value) [
  | some n ↦ n
  | none ↦ if starts_with (bytes "Second-infinite") value then negsuc 0 else default_timeout
]

-- With the limit of the device.
unfoldable pub granted : HandleInfo → ℤ → ℤ
granted info time_out =
    let limit = info.max_subscription_time_out in
    if not (eqb_ℤ limit (negsuc 0)) && (eqb_ℤ time_out (negsuc 0) || ltb_ℤ limit time_out)
    then limit
    else time_out

-- The time at which a subscription expires, 0 for none.
unfoldable pub expiry : Around → ℤ → ℤ
unfolding ◌+ℤ◌
expiry a time_out = if ltb_ℤ (pos 0) time_out then a.now +ℤ time_out else pos 0
