-- ===== src/Gena/Kept.antt =====
-- The bookkeeping of the subscriptions of every service in the table of handles, which
-- src/gena/gena_server.c shares with src/api/upnpapi.c.
pub mod Services
pub mod Tables
pub mod Operations
pub mod Events
pub mod Requests
pub mod Callback
pub mod Calls
use upnpsdk.Prelude.{ℕ, ◌≡◌, ◌⊎◌, Option, none, some, List, All, length}
use upnpsdk.Prelude.Int.{ℤ, pos, negsuc, ◌≤ℤ◌}
use upnpsdk.ServiceTable.{ServiceInfo}
use upnpsdk.ServiceTable.Lookup.{IsCounted}
use upnpsdk.Api.Handles.{HandleInfo, HandleTable}

-- The count is right, and the limit, where there is one, is kept.
abbrev pub IsKept : ℤ → ServiceInfo → Type 0
IsKept limit s = IsCounted s × ((limit ≡ negsuc 0) ⊎ (pos (length s.subscription_list) ≤ℤ limit))

abbrev pub IsInfoKept : HandleInfo → Type 0
IsInfoKept info = All (IsKept info.max_subscriptions) info.service_table.service_list

abbrev pub IsSlotKept : Option HandleInfo → Type 0
IsSlotKept none = Unit
IsSlotKept (some info) = IsInfoKept info

abbrev pub IsTableKept : HandleTable → Type 0
IsTableKept t = All IsSlotKept t
