-- ===== src/Client/Chats.antt =====
-- client/chats.c and chats.h: the chats, each with its members and a window of its last messages.
pub mod Append
pub mod Window
pub mod Single
pub mod Hold
pub mod Kept
use psd_ims.Prelude.{
  ℕ, zero, suc, ◌+◌, ◌-◌, ◌≡◌, Bool, true, false, ◌&&◌, Option, none, some, List, [], ◌∷◌, length,
  set, get_elem?, drop, Text, ltb, if◌then◌else◌,
}
use psd_ims.Prelude.Int.{ℤ, pos, same_int, ltb_ℤ}
use psd_ims.ItemList.{
  ItemList, Status, ok, failed, list_full, list_new, list_add_item, list_find_node, list_find_item,
}
use psd_ims.Client.Common.{ListInfo, set_comparators, delete_value}
use psd_ims.Client.Friends.{FriendInfo}
use psd_ims.Client.Members.{
  ChatMembers, members_new, members_add_member, members_del_member, member_find_member,
}
use psd_ims.Client.Messages.{
  Messages, mes_new, mes_add_message, mes_del_first_messages, mes_del_last_messages,
}

-- The two counters only ever grow from 0 or are set to 0 or 1.
pub record ChatInfo : Type 0 where
  pub id : ℤ
  pub description : Text
  pub read_timestamp : ℤ
  pub all_read_timestamp : ℤ
  pub unread_messages : ℕ
  pub pending_messages : ℕ
  pub admin : Text
  pub members : ChatMembers
  pub messages : Messages

abbrev pub Chats : Type 0
Chats = ItemList ChatInfo ℤ ListInfo

-- `a - b == 0`
abbrev pub chat_id_comp : ChatInfo → ℤ → Bool
chat_id_comp c id = same_int c.id id

abbrev pub chat_comp : ChatInfo → ChatInfo → Bool
chat_comp c d = same_int c.id d.id

unfoldable pub cha_new : ℕ → (granted : Bool) → Option Chats
cha_new max granted =
    set_comparators (list_new (record { timestamp = pos 0 }) max true true granted) chat_id_comp
      chat_comp

-- One message as the caller hands it over, in the arrays `sender`, `text`, `send_timestamp` and
-- `attach_path`.
pub record Incoming : Type 0 where
  pub sender : Option Text
  pub text : Option Text
  pub send_timestamp : ℤ
  pub attach_path : Option Text

-- The loop of `cha_add_chat` over its two arrays.
unfoldable pub add_members :
    ChatMembers → List (Text × Option FriendInfo) → Bool → ChatMembers × Status
add_members l [] granted = (l, ok)
add_members l ((name, friend) ∷ rest) granted =
    let more = add_members (members_add_member l name friend granted).0 rest granted in
    elim (members_add_member l name friend granted).1 [
      | ok ↦ more
      | failed ↦ ((members_add_member l name friend granted).0, failed)
    ]

abbrev pub new_chat_info : ℤ → Text → Text → ChatMembers → Messages → (read all_read : ℤ) → ChatInfo
new_chat_info chat_id description admin members messages read_timestamp all_read_timestamp =
    record {
      id = chat_id;
      description = description;
      read_timestamp = read_timestamp;
      all_read_timestamp = all_read_timestamp;
      unread_messages = 0;
      pending_messages = 0;
      admin = admin;
      members = members;
      messages = messages;
    }

unfoldable pub cha_add_chat :
    Chats
    → ℤ
    → (description admin : Text) → List (Text × Option FriendInfo)
    → (max_members max_messages : ℕ) → (read_timestamp all_read_timestamp : ℤ) → (granted : Bool)
    → Chats × Status
cha_add_chat l chat_id description admin names max_members max_messages read all_read granted =
    elim (members_new max_members granted) [
      | none ↦ (l, failed)
      | some empty_members ↦ elim (mes_new max_messages granted) [
        | none ↦ (l, failed)
        | some messages ↦ elim (add_members empty_members names granted).1 [
          | failed ↦ (l, failed)
          | ok ↦
              list_add_item l
                (some (
                  new_chat_info chat_id description admin
                    (add_members empty_members names granted).0 messages read all_read))
                granted
        ]
      ]
    ]

-- `unread_messages++` for a message that is later than `read_timestamp`.
abbrev pub count_unread : ChatInfo → ℤ → ChatInfo
count_unread c send_timestamp =
    if ltb_ℤ c.read_timestamp send_timestamp
    then record c { unread_messages = c.unread_messages + 1 }
    else c

unfoldable pub cha_add_message : ChatInfo → Incoming → (granted : Bool) → ChatInfo × Status
cha_add_message c m granted =
    let room = if list_full c.messages then mes_del_first_messages c.messages 1 else c.messages in
    let (messages, status) =
      mes_add_message room m.sender m.text m.send_timestamp m.attach_path granted in
    elim status [
      | ok ↦ (count_unread (record c { messages = messages }) m.send_timestamp, ok)
      | failed ↦ (record c { messages = messages }, failed)
    ]

-- The second loop of `cha_add_messages`, from the index `i` on; `granted` is asked for each message.
unfoldable pub add_messages : ChatInfo → ℕ → List Incoming → (ℕ → Bool) → ChatInfo × Status
add_messages c i [] granted = (c, ok)
add_messages c i (m ∷ ms) granted =
    let (messages, status) =
      mes_add_message c.messages m.sender m.text m.send_timestamp m.attach_path (granted i) in
    let rest =
      add_messages (count_unread (record c { messages = messages }) m.send_timestamp) (suc i) ms
        granted in
    elim status [
      | ok ↦ rest
      | failed ↦ (record c { messages = mes_del_last_messages messages i }, failed)
    ]

-- How many of the incoming messages are skipped, and how many old ones make room for the others.
-- A negative `gaps_needed` is 0 here, and deletes as little.
abbrev pub skipped : ChatInfo → ℕ → ℕ
skipped c n_messages =
    if ltb c.messages.max_elems n_messages then n_messages - c.messages.max_elems else 0

abbrev pub gaps_needed : ChatInfo → ℕ → ℕ
gaps_needed c n_messages =
    n_messages - skipped c n_messages + c.messages.n_elems - c.messages.max_elems

abbrev pub make_room : ChatInfo → ℕ → ChatInfo
make_room c gaps =
    if ltb 0 gaps then record c { messages = mes_del_first_messages c.messages gaps } else c

unfoldable pub cha_add_messages : ChatInfo → List Incoming → (ℕ → Bool) → ChatInfo × Status
unfolding add_messages
cha_add_messages c incoming granted =
    add_messages (make_room c (gaps_needed c (length incoming))) (skipped c (length incoming))
      (drop (skipped c (length incoming)) incoming) granted

unfoldable pub cha_add_member : ChatInfo → Option FriendInfo → Text → Bool → ChatInfo × Status
cha_add_member c member member_name granted =
    let (members, status) = members_add_member c.members member_name member granted in
    (record c { members = members }, status)

unfoldable pub cha_del_member : ChatInfo → Text → ChatInfo × Status
cha_del_member c member_name =
    let (members, status) = members_del_member c.members member_name in
    (record c { members = members }, status)

unfoldable pub cha_change_admin : ChatInfo → Text → (granted : Bool) → ChatInfo × Status
cha_change_admin c member_name granted = elim (member_find_member c.members member_name) [
  | none ↦ (c, failed)
  | some m ↦ if granted then (record c { admin = member_name }, ok) else (c, failed)
]

unfoldable pub cha_del_chat : Chats → ℤ → Chats × Status
cha_del_chat l chat_id = delete_value l chat_id

unfoldable pub cha_find_chat : Chats → ℤ → Option ChatInfo
cha_find_chat l chat_id = list_find_item l chat_id

-- A write through the pointer that `cha_find_chat` returns.
unfoldable pub write_chat : Chats → ℤ → ChatInfo → Chats
write_chat l chat_id c = elim (list_find_node l chat_id) [
  | none ↦ l
  | some i ↦ record l { items = set l.items i c }
]
