-- ===== src/Ssdp/Event.antt =====
-- The event that src/ssdp/ssdpparser.c fills (src/inc/interface.h), its constants, and `StrTok`.
use upnpsdk.Prelude.{ℕ, Option, none, some, List, [], if◌then◌else◌, ltb, ◌>>=◌, drop, length}
use upnpsdk.Prelude.Int.{ℤ, pos, negsuc}
use upnpsdk.Prelude.Search.{find_str}

-- `enum CmdType` and `enum SEARCH_TYPE`.
pub data Cmd : Type 0 where
  error ok alive byebye search notify timeout : Cmd

pub data SearchType : Type 0 where
  serror all rootdevice device devicetype service : SearchType

-- `Event`, but for the two fields that the parser does not touch.
pub record Event : Type 0 where
  pub cmd : Cmd
  pub request_type : SearchType
  pub err_code : ℤ
  pub max_age : ℤ
  pub mx : ℤ
  pub udn : List ℕ
  pub device_type : List ℕ
  pub service_type : List ℕ
  pub location : List ℕ
  pub host_addr : List ℕ
  pub os : List ℕ
  pub ext : List ℕ
  pub date : List ℕ
  pub man : List ℕ

abbrev pub line_size : ℕ
line_size = 180

abbrev pub command_len : ℕ
command_len = 300

abbrev pub num_token : ℕ
num_token = 12

abbrev pub no_error_found : ℤ
no_error_found = pos 0

abbrev pub e_http_syntex : ℤ
e_http_syntex = negsuc 5

-- The return value and the event.
abbrev pub Parsed : Type 0
Parsed = Option (ℤ × Event)

abbrev pub return_ok : Event → Parsed
return_ok e = some (pos 1, e)

abbrev pub return_bad : Event → Parsed
return_bad e = some (negsuc 0, e)

-- `Evt->ErrCode = E_HTTP_SYNTEX; return -1;`
abbrev pub syntax_error : Event → Parsed
syntax_error e = return_bad (record e { err_code = e_http_syntex })

-- A copy with its terminator into a buffer of `size` bytes.
abbrev pub copy_to : ℕ → List ℕ → Option (List ℕ)
copy_to size s = if ltb (length s) size then some s else none

-- A copy of a header's value into a field of the event.
abbrev pub copied : List ℕ → (List ℕ → Event) → Parsed
copied s f = copy_to line_size s >>= λ x. return_ok (f x)

-- The token and the rest of the source behind the delimiter; the source is NULL after the last one.
unfoldable pub str_tok : Option (List ℕ) → List ℕ → Option (List ℕ) × Option (List ℕ)
unfolding find_str
str_tok none del = (none, none)
str_tok (some s) del = elim (find_str s del) [
  | none ↦ (some s, none)
  | some (before, from) ↦ (some before, some (drop (length del) from))
]

-- `InitEvent`.
abbrev pub initial_event : Event
initial_event = record {
  cmd = error;
  request_type = serror;
  err_code = pos 0;
  max_age = pos 0;
  mx = negsuc 0;
  udn = [];
  device_type = [];
  service_type = [];
  location = [];
  host_addr = [];
  os = [];
  ext = [];
  date = [];
  man = [];
}
