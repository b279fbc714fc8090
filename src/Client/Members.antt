-- ===== src/Client/Members.antt =====
-- client/chat_members.c and chat_members.h: the members of a chat. A member's pointer to a friend is
-- the friend that it points to, `none` for NULL; no code writes to a friend once it is made.
use psd_ims.Prelude.{ℕ, Bool, true, Option, some, Text, same_text, if◌then◌else◌}
use psd_ims.Prelude.Int.{pos}
use psd_ims.ItemList.{ItemList, Status, failed, list_new, list_add_item, list_find_item}
use psd_ims.Client.Common.{ListInfo, set_comparators, delete_value}
use psd_ims.Client.Friends.{FriendInfo}

pub record MemberInfo : Type 0 where
  pub name : Text
  pub info : Option FriendInfo

abbrev pub ChatMembers : Type 0
ChatMembers = ItemList MemberInfo Text ListInfo

abbrev pub member_name_comp : MemberInfo → Text → Bool
member_name_comp m name = same_text m.name name

abbrev pub member_comp : MemberInfo → MemberInfo → Bool
member_comp m n = same_text m.name n.name

unfoldable pub members_new : ℕ → (granted : Bool) → Option ChatMembers
members_new max granted =
    set_comparators (list_new (record { timestamp = pos 0 }) max true true granted) member_name_comp
      member_comp

unfoldable pub members_add_member :
    ChatMembers → Text → Option FriendInfo → (granted : Bool) → ChatMembers × Status
members_add_member l name info granted =
    if granted
    then list_add_item l (some (record { name = name; info = info })) granted
    else (l, failed)

unfoldable pub members_del_member : ChatMembers → Text → ChatMembers × Status
members_del_member l name = delete_value l name

unfoldable pub member_find_member : ChatMembers → Text → Option MemberInfo
member_find_member l name = list_find_item l name
