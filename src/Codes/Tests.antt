-- ===== src/Codes/Tests.antt =====
-- The theorem on `UpnpGetErrorMessage` of src/api/upnptools.c at a code of the table.
use upnpsdk.Prelude.{◌≡◌, ◌↔◌, true}
use upnpsdk.Codes.{Status, rc, get_error_message}
use upnpsdk.Codes.Messages.{macro_name, is_named, message-eq-name_iff}

message-eq-name_example :
    (get_error_message (rc Status.finish) ≡ macro_name Status.finish)
    ↔ (is_named Status.finish ≡ true)
message-eq-name_example = message-eq-name_iff Status.finish
