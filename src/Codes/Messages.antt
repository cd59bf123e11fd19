-- ===== src/Codes/Messages.antt =====
-- The text of a code in `ErrorMessages`: each code of the table gets the name of its macro, but for
-- UPNP_E_OUTOF_MEMORY, and six codes of upnp.h have no entry.
use upnpsdk.Prelude.{List, ℕ, ◌≡◌, refl, ◌↔◌, Bool, true, false, bytes, str_eq, str_eq_iff}
use upnpsdk.Codes.{Status, rc, get_error_message}

-- The name of the macro in upnp.h.
pub macro_name : Status → List ℕ
macro_name Status.success = bytes "UPNP_E_SUCCESS"
macro_name Status.invalid_handle = bytes "UPNP_E_INVALID_HANDLE"
macro_name Status.invalid_param = bytes "UPNP_E_INVALID_PARAM"
macro_name Status.outof_handle = bytes "UPNP_E_OUTOF_HANDLE"
macro_name Status.outof_context = bytes "UPNP_E_OUTOF_CONTEXT"
macro_name Status.outof_memory = bytes "UPNP_E_OUTOF_MEMORY"
macro_name Status.init = bytes "UPNP_E_INIT"
macro_name Status.buffer_too_small = bytes "UPNP_E_BUFFER_TOO_SMALL"
macro_name Status.invalid_desc = bytes "UPNP_E_INVALID_DESC"
macro_name Status.invalid_url = bytes "UPNP_E_INVALID_URL"
macro_name Status.invalid_sid = bytes "UPNP_E_INVALID_SID"
macro_name Status.invalid_device = bytes "UPNP_E_INVALID_DEVICE"
macro_name Status.invalid_service = bytes "UPNP_E_INVALID_SERVICE"
macro_name Status.bad_response = bytes "UPNP_E_BAD_RESPONSE"
macro_name Status.bad_request = bytes "UPNP_E_BAD_REQUEST"
macro_name Status.invalid_action = bytes "UPNP_E_INVALID_ACTION"
macro_name Status.finish = bytes "UPNP_E_FINISH"
macro_name Status.init_failed = bytes "UPNP_E_INIT_FAILED"
macro_name Status.url_too_big = bytes "UPNP_E_URL_TOO_BIG"
macro_name Status.network_error = bytes "UPNP_E_NETWORK_ERROR"
macro_name Status.socket_write = bytes "UPNP_E_SOCKET_WRITE"
macro_name Status.socket_read = bytes "UPNP_E_SOCKET_READ"
macro_name Status.socket_bind = bytes "UPNP_E_SOCKET_BIND"
macro_name Status.socket_connect = bytes "UPNP_E_SOCKET_CONNECT"
macro_name Status.outof_socket = bytes "UPNP_E_OUTOF_SOCKET"
macro_name Status.listen = bytes "UPNP_E_LISTEN"
macro_name Status.event_protocol = bytes "UPNP_E_EVENT_PROTOCOL"
macro_name Status.subscribe_unaccepted = bytes "UPNP_E_SUBSCRIBE_UNACCEPTED"
macro_name Status.unsubscribe_unaccepted = bytes "UPNP_E_UNSUBSCRIBE_UNACCEPTED"
macro_name Status.notify_unaccepted = bytes "UPNP_E_NOTIFY_UNACCEPTED"
macro_name Status.invalid_argument = bytes "UPNP_E_INVALID_ARGUMENT"
macro_name Status.file_not_found = bytes "UPNP_E_FILE_NOT_FOUND"
macro_name Status.file_read_error = bytes "UPNP_E_FILE_READ_ERROR"
macro_name Status.ext_not_xml = bytes "UPNP_E_EXT_NOT_XML"
macro_name Status.no_web_server = bytes "UPNP_E_NO_WEB_SERVER"
macro_name Status.outof_bounds = bytes "UPNP_E_OUTOF_BOUNDS"
macro_name Status.internal_error = bytes "UPNP_E_INTERNAL_ERROR"

-- The codes with an entry of their own name.
pub is_named : Status → Bool
is_named Status.outof_memory = false
is_named Status.url_too_big = false
is_named Status.file_not_found = false
is_named Status.file_read_error = false
is_named Status.ext_not_xml = false
is_named Status.no_web_server = false
is_named Status.outof_bounds = false
is_named _ = true

str_eq-message : (s : Status) → str_eq (get_error_message (rc s)) (macro_name s) ≡ is_named s
unfolding get_error_message rc macro_name str_eq is_named
str_eq-message Status.success = refl
str_eq-message _ = refl

-- `UpnpGetErrorMessage` at the value of a code of upnp.h returns the name of its macro exactly when
-- the code is none of UPNP_E_OUTOF_MEMORY, UPNP_E_URL_TOO_BIG, UPNP_E_FILE_NOT_FOUND,
-- UPNP_E_FILE_READ_ERROR, UPNP_E_EXT_NOT_XML, UPNP_E_NO_WEB_SERVER and UPNP_E_OUTOF_BOUNDS.
pub message-eq-name_iff :
    (s : Status) → (get_error_message (rc s) ≡ macro_name s) ↔ (is_named s ≡ true)
message-eq-name_iff s =
    rw (← str_eq-message s)
      (let (to, from) = str_eq_iff (get_error_message (rc s)) (macro_name s) in (from, to))
