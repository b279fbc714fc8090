-- ===== src/Client/Friends.antt =====
-- client/friends.c and friends.h: the friend list.
use psd_ims.Prelude.{ℕ, Bool, true, Option, some, Text, same_text, if◌then◌else◌}
use psd_ims.Prelude.Int.{pos}
use psd_ims.ItemList.{ItemList, Status, failed, list_new, list_add_item, list_find_item}
use psd_ims.Client.Common.{ListInfo, set_comparators, delete_value}

pub record FriendInfo : Type 0 where
  pub name : Text
  pub information : Text

abbrev pub Friends : Type 0
Friends = ItemList FriendInfo Text ListInfo

abbrev pub friend_name_comp : FriendInfo → Text → Bool
friend_name_comp f name = same_text f.name name

abbrev pub friend_comp : FriendInfo → FriendInfo → Bool
friend_comp f g = same_text f.name g.name

-- `granted` says whether `malloc` grants every block that the call asks for.
unfoldable pub fri_new : ℕ → (granted : Bool) → Option Friends
fri_new max granted =
    set_comparators (list_new (record { timestamp = pos 0 }) max true true granted) friend_name_comp
      friend_comp

unfoldable pub fri_add_friend : Friends → Text → Text → (granted : Bool) → Friends × Status
fri_add_friend l name information granted =
    if granted
    then list_add_item l (some (record { name = name; information = information })) granted
    else (l, failed)

unfoldable pub fri_del_friend : Friends → Text → Friends × Status
fri_del_friend l name = delete_value l name

unfoldable pub fri_find_friend : Friends → Text → Option FriendInfo
fri_find_friend l name = list_find_item l name
