-- ===== src/Client/Requests.antt =====
-- client/friend_requests.c and friend_requests.h: the friend requests that wait for an answer.
use psd_ims.Prelude.{ℕ, Bool, true, Option, some, Text, same_text, if◌then◌else◌}
use psd_ims.Prelude.Int.{ℤ, pos}
use psd_ims.ItemList.{ItemList, Status, failed, list_new, list_add_item, list_find_item}
use psd_ims.Client.Common.{ListInfo, set_comparators, delete_value}

pub record RequestInfo : Type 0 where
  pub name : Text
  pub timestamp : ℤ

abbrev pub FriendRequests : Type 0
FriendRequests = ItemList RequestInfo Text ListInfo

abbrev pub request_name_comp : RequestInfo → Text → Bool
request_name_comp r name = same_text r.name name

abbrev pub request_comp : RequestInfo → RequestInfo → Bool
request_comp r q = same_text r.name q.name

unfoldable pub req_new : ℕ → (granted : Bool) → Option FriendRequests
req_new max granted =
    set_comparators (list_new (record { timestamp = pos 0 }) max true true granted)
      request_name_comp request_comp

unfoldable pub req_add_request :
    FriendRequests → Text → ℤ → (granted : Bool) → FriendRequests × Status
req_add_request l name timestamp granted =
    if granted
    then list_add_item l (some (record { name = name; timestamp = timestamp })) granted
    else (l, failed)

unfoldable pub req_del_request : FriendRequests → Text → FriendRequests × Status
req_del_request l name = delete_value l name

unfoldable pub req_find_request : FriendRequests → Text → Option RequestInfo
req_find_request l name = list_find_item l name
