-- ===== src/Codes.antt =====
-- The result codes of inc/upnp.h, and the table of src/api/upnptools.c that names them.
mod Messages
mod Tests
use upnpsdk.Prelude.{List, [], ◌∷◌, ◌≡◌, ℕ, if◌then◌else◌, bytes}
use upnpsdk.Prelude.Int.{ℤ, pos, negsuc, eqb_ℤ}

-- The codes that the modelled functions return, and those of the table.
pub data Status : Type 0 where
  success invalid_handle invalid_param outof_handle outof_context outof_memory init : Status
  buffer_too_small invalid_desc invalid_url invalid_sid invalid_device invalid_service : Status
  bad_response bad_request invalid_action finish init_failed url_too_big : Status
  network_error socket_write socket_read socket_bind socket_connect outof_socket listen : Status
  event_protocol subscribe_unaccepted unsubscribe_unaccepted notify_unaccepted : Status
  invalid_argument file_not_found file_read_error ext_not_xml no_web_server : Status
  outof_bounds internal_error : Status

-- The value of each macro: `negsuc n` is -(n + 1).
unfoldable pub rc : Status → ℤ
rc success = pos 0
rc invalid_handle = negsuc 99
rc invalid_param = negsuc 100
rc outof_handle = negsuc 101
rc outof_context = negsuc 102
rc outof_memory = negsuc 103
rc init = negsuc 104
rc buffer_too_small = negsuc 105
rc invalid_desc = negsuc 106
rc invalid_url = negsuc 107
rc invalid_sid = negsuc 108
rc invalid_device = negsuc 109
rc invalid_service = negsuc 110
rc bad_response = negsuc 112
rc bad_request = negsuc 113
rc invalid_action = negsuc 114
rc finish = negsuc 115
rc init_failed = negsuc 116
rc url_too_big = negsuc 117
rc network_error = negsuc 199
rc socket_write = negsuc 200
rc socket_read = negsuc 201
rc socket_bind = negsuc 202
rc socket_connect = negsuc 203
rc outof_socket = negsuc 204
rc listen = negsuc 205
rc event_protocol = negsuc 299
rc subscribe_unaccepted = negsuc 300
rc unsubscribe_unaccepted = negsuc 301
rc notify_unaccepted = negsuc 302
rc invalid_argument = negsuc 500
rc file_not_found = negsuc 501
rc file_read_error = negsuc 502
rc ext_not_xml = negsuc 503
rc no_web_server = negsuc 504
rc outof_bounds = negsuc 505
rc internal_error = negsuc 910

-- `struct ErrorString`.
pub record ErrorString : Type 0 where
  pub code : ℤ
  pub text : List ℕ

entry : Status → List ℕ → ErrorString
unfolding rc
entry s t = record { code = rc s; text = t }

-- `ErrorMessages`, in the order of the source.
pub error_messages : List ErrorString
unfolding entry
error_messages =
    entry success (bytes "UPNP_E_SUCCESS")
    ∷ entry invalid_handle (bytes "UPNP_E_INVALID_HANDLE")
    ∷ entry invalid_param (bytes "UPNP_E_INVALID_PARAM")
    ∷ entry outof_handle (bytes "UPNP_E_OUTOF_HANDLE")
    ∷ entry outof_context (bytes "UPNP_E_OUTOF_CONTEXT")
    ∷ entry outof_memory (bytes "UPNP_E_OUTOF_MEMOR")
    ∷ entry init (bytes "UPNP_E_INIT")
    ∷ entry buffer_too_small (bytes "UPNP_E_BUFFER_TOO_SMALL")
    ∷ entry invalid_desc (bytes "UPNP_E_INVALID_DESC")
    ∷ entry invalid_url (bytes "UPNP_E_INVALID_URL")
    ∷ entry invalid_sid (bytes "UPNP_E_INVALID_SID")
    ∷ entry invalid_device (bytes "UPNP_E_INVALID_DEVICE")
    ∷ entry invalid_service (bytes "UPNP_E_INVALID_SERVICE")
    ∷ entry bad_response (bytes "UPNP_E_BAD_RESPONSE")
    ∷ entry bad_request (bytes "UPNP_E_BAD_REQUEST")
    ∷ entry invalid_action (bytes "UPNP_E_INVALID_ACTION")
    ∷ entry finish (bytes "UPNP_E_FINISH")
    ∷ entry init_failed (bytes "UPNP_E_INIT_FAILED")
    ∷ entry network_error (bytes "UPNP_E_NETWORK_ERROR")
    ∷ entry socket_write (bytes "UPNP_E_SOCKET_WRITE")
    ∷ entry socket_read (bytes "UPNP_E_SOCKET_READ")
    ∷ entry socket_bind (bytes "UPNP_E_SOCKET_BIND")
    ∷ entry socket_connect (bytes "UPNP_E_SOCKET_CONNECT")
    ∷ entry outof_socket (bytes "UPNP_E_OUTOF_SOCKET")
    ∷ entry listen (bytes "UPNP_E_LISTEN")
    ∷ entry event_protocol (bytes "UPNP_E_EVENT_PROTOCOL")
    ∷ entry subscribe_unaccepted (bytes "UPNP_E_SUBSCRIBE_UNACCEPTED")
    ∷ entry unsubscribe_unaccepted (bytes "UPNP_E_UNSUBSCRIBE_UNACCEPTED")
    ∷ entry notify_unaccepted (bytes "UPNP_E_NOTIFY_UNACCEPTED")
    ∷ entry internal_error (bytes "UPNP_E_INTERNAL_ERROR")
    ∷ entry invalid_argument (bytes "UPNP_E_INVALID_ARGUMENT")
    ∷ []

-- The loop of `UpnpGetErrorMessage` over the rest of the table.
pub find_message : ℤ → List ErrorString → List ℕ
find_message c [] = bytes "Unknown Error"
find_message c (e ∷ es) = if eqb_ℤ c e.code then e.text else find_message c es

pub get_error_message : ℤ → List ℕ
unfolding find_message error_messages
get_error_message c = find_message c error_messages
