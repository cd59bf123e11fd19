-- ===== src/Api/Handles/Tests.antt =====
-- The theorems on the table of handles of src/api/upnpapi.c at a table with two control points, and
-- runs of its functions.
use upnpsdk.Prelude.{◌≡◌, refl, true, none, some, arith, if◌then◌else◌, length}
use upnpsdk.Prelude.Int.{pos, negsuc, eqb_ℤ}
use upnpsdk.Codes.{Status, rc}
use upnpsdk.Api.Handles.{
  HandleTable, num_handle, init_handle_list, put, client_info, get_free_handle, get_handle_info,
  get_device_handle_info, free_handle, register_client,
}
use upnpsdk.Api.Handles.Free.{Free, get_free_handle-Free}
use upnpsdk.Api.Handles.Lookup.{Registers, get-free, register_client-Registers}

abbrev table : HandleTable
table = put 1 (some (client_info 7 0)) (put 3 (some (client_info 8 0)) init_handle_list)

table_size : length table ≡ num_handle
unfolding put init_handle_list
table_size = refl

first_free : get_free_handle table ≡ pos 2
unfolding get_free_handle put init_handle_list
first_free = refl

no_device : get_device_handle_info table none ≡ (negsuc 0, negsuc 0, some (client_info 7 0))
unfolding get_device_handle_info put init_handle_list rc
no_device = refl

get_free_handle-Free_example : Free table (get_free_handle table)
get_free_handle-Free_example = get_free_handle-Free table table_size

get-free_example :
    (get_handle_info (free_handle table (pos 3)).1 (pos 1) none ≡ (
      if eqb_ℤ (pos 3) (pos 1)
      then (rc Status.invalid_handle, none)
      else get_handle_info table (pos 1) none))
    × (length (free_handle table (pos 3)).1 ≡ num_handle)
get-free_example = get-free table (pos 3) (pos 1) none table_size

register_client-Registers_example :
    Registers (client_info 9 4) table (register_client (pos 1) true 9 4 (some (pos 0)) table)
register_client-Registers_example =
    register_client-Registers 9 4 (pos 0) table table_size (λ e. omega (arith, e))
