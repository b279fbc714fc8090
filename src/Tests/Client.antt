-- ===== src/Tests/Client.antt =====
-- Runs of common/list.c and client/chats.c on small lists.
use psd_ims.Prelude.{
  ℕ, ◌≡◌, refl, ◌↔◌, ◌<◌, true, none, some, List, [], ◌∷◌, arith, codes, Text, same_text,
  if◌then◌else◌,
}
use psd_ims.Prelude.Int.{pos}
use psd_ims.ItemList.{
  find_node, ok, failed, list_add_item, list_find_item, list_find_node, list_delete_node,
  list_delete_first,
}
use psd_ims.ItemList.Lookup.{
  Keyed, IsMap, list_add_item-ok_iff, list_find_item-list_add_item, list_add_item-IsMap,
  list_find_item-list_delete_node,
}
use psd_ims.ItemList.Delete.{list_delete_first-drop}
use psd_ims.Client.Common.{by_name}
use psd_ims.Client.Friends.{FriendInfo, Friends, friend_name_comp, friend_comp}
use psd_ims.Client.Members.{member_name_comp, member_comp}
use psd_ims.Client.Messages.{
  mes_del_first_messages, mes_add_message, MessageInfo, message_info, message_comp,
  message_timestamp_comp,
}
use psd_ims.Client.Chats.{ChatInfo, Incoming, cha_add_message, cha_add_messages, add_messages}
use psd_ims.Client.Chats.Append.{HasValidMessages, entry}
use psd_ims.Client.Chats.Window.{IsWindow, cha_add_messages-IsWindow}
use psd_ims.Client.Chats.Single.{
  cha_add_message_window, cha_add_message_refused, add_messages_keeps_prefix,
}

abbrev alice : FriendInfo
alice = record { name = codes "alice"; information = codes "hi" }

abbrev pub bob : FriendInfo
bob = record { name = codes "bob"; information = codes "away" }

abbrev pub carol : FriendInfo
carol = record { name = codes "carol"; information = [] }

-- Two friends in a list that holds three.
abbrev pub two_friends : Friends
two_friends = record {
  items = alice ∷ bob ∷ [];
  list_info = record { timestamp = pos 0 };
  n_elems = 2;
  max_elems = 3;
  item_comp = some friend_comp;
  item_value_comp = some friend_name_comp;
  freed = [];
}

abbrev by_friend : Keyed FriendInfo Text
by_friend = by_name (λ f. f.name)

pub two_friends-IsMap : IsMap by_friend two_friends
unfolding same_text
two_friends-IsMap = record {
  valid = record {
    compares = refl;
    counted = refl;
    bounded = omega arith;
    distinct = ((refl, tt), (tt, tt));
  };
  compares_key = refl;
}

carol_added : (list_add_item two_friends (some carol) true).1 ≡ ok
unfolding list_add_item find_node same_text
carol_added = refl

bob_found : list_find_node two_friends (codes "bob") ≡ some 1
unfolding list_find_node find_node same_text
bob_found = refl

list_add_item-ok_iff_example :
    ((list_add_item two_friends (some carol) true).1 ≡ ok)
    ↔ ((2 < 3) × (true ≡ true) × (list_find_item two_friends (codes "carol") ≡ none))
list_add_item-ok_iff_example =
    list_add_item-ok_iff by_friend two_friends carol true two_friends-IsMap

list_find_item-list_add_item_example :
    list_find_item (list_add_item two_friends (some carol) true).0 (codes "carol") ≡ (
      if same_text (codes "carol") (codes "carol")
      then some carol
      else list_find_item two_friends (codes "carol"))
list_find_item-list_add_item_example =
    list_find_item-list_add_item by_friend two_friends carol true (codes "carol") two_friends-IsMap
      carol_added

list_add_item-IsMap_example : IsMap by_friend (list_add_item two_friends (some carol) true).0
list_add_item-IsMap_example =
    list_add_item-IsMap by_friend two_friends (some carol) true two_friends-IsMap

list_find_item-list_delete_node_example :
    list_find_item (list_delete_node two_friends 1) (codes "alice") ≡ (
      if same_text (codes "bob") (codes "alice")
      then none
      else list_find_item two_friends (codes "alice"))
list_find_item-list_delete_node_example =
    list_find_item-list_delete_node by_friend two_friends 1 (codes "bob") (codes "alice")
      two_friends-IsMap bob_found

list_delete_first-drop_example :
    ((list_delete_first two_friends 1).items ≡ bob ∷ [])
    × ((list_delete_first two_friends 1).freed ≡ alice ∷ [])
list_delete_first-drop_example = list_delete_first-drop two_friends 1

abbrev said : ℕ → Text → Incoming
said t text = record {
  sender = some (codes "bob");
  text = some text;
  send_timestamp = pos t;
  attach_path = none;
}

abbrev no_text : Incoming
no_text = record {
  sender = some (codes "bob");
  text = none;
  send_timestamp = pos 40;
  attach_path = none;
}

-- A chat that holds at most two messages and has one or two of them.
abbrev chat_of : List MessageInfo → ℕ → ChatInfo
chat_of messages n = record {
  id = pos 5;
  description = codes "chat";
  read_timestamp = pos 15;
  all_read_timestamp = pos 10;
  unread_messages = 0;
  pending_messages = 0;
  admin = codes "alice";
  members = record {
    items = [];
    list_info = record { timestamp = pos 0 };
    n_elems = 0;
    max_elems = 4;
    item_comp = some member_comp;
    item_value_comp = some member_name_comp;
    freed = [];
  };
  messages = record {
    items = messages;
    list_info = record { timestamp = pos 0 };
    n_elems = n;
    max_elems = 2;
    item_comp = some message_comp;
    item_value_comp = some message_timestamp_comp;
    freed = [];
  };
}

abbrev first_message : MessageInfo
first_message = message_info (some (codes "alice")) (codes "hello") (pos 10) none

abbrev second_message : MessageInfo
second_message = message_info (some (codes "bob")) (codes "hello you") (pos 12) none

abbrev pub chat : ChatInfo
chat = chat_of (first_message ∷ []) 1

abbrev full_chat : ChatInfo
full_chat = chat_of (first_message ∷ second_message ∷ []) 2

pub chat-HasValidMessages : HasValidMessages chat
chat-HasValidMessages = record {
  compares = refl;
  counted = refl;
  bounded = omega arith;
  distinct = (tt, tt);
}

full_chat-HasValidMessages : HasValidMessages full_chat
full_chat-HasValidMessages = record {
  compares = refl;
  counted = refl;
  bounded = omega arith;
  distinct = ((refl, tt), (tt, tt));
}

abbrev batch : List Incoming
batch = said 20 (codes "one") ∷ said 21 (codes "two") ∷ said 22 (codes "three") ∷ []

cha_add_messages-IsWindow_example : IsWindow chat batch (cha_add_messages chat batch (λ j. true))
cha_add_messages-IsWindow_example =
    cha_add_messages-IsWindow chat batch (λ j. true) chat-HasValidMessages
      (refl, (refl, (refl, tt))) (λ j. refl)
      ((refl, (refl, (refl, tt))), ((refl, (refl, tt)), ((refl, tt), (tt, tt))))

cha_add_message_window_example :
    ((cha_add_message full_chat (said 20 (codes "one")) true).1 ≡ ok)
    × ((cha_add_message full_chat (said 20 (codes "one")) true).0.messages.items
        ≡ second_message ∷ entry (said 20 (codes "one")) ∷ [])
cha_add_message_window_example =
    cha_add_message_window full_chat (said 20 (codes "one")) full_chat-HasValidMessages
      (omega arith) refl ((refl, (refl, tt)), ((refl, tt), (tt, tt)))

no_text_refused : (cha_add_message full_chat no_text true).1 ≡ failed
unfolding cha_add_message mes_add_message list_delete_first mes_del_first_messages
no_text_refused = refl

cha_add_message_refused_example :
    (cha_add_message full_chat no_text true).0.messages.items ≡ second_message ∷ []
cha_add_message_refused_example =
    cha_add_message_refused full_chat no_text true full_chat-HasValidMessages no_text_refused

add_messages_keeps_prefix_example :
    ((add_messages chat 0 (said 20 (codes "one") ∷ no_text ∷ []) (λ j. true)).1 ≡ failed)
    × ((add_messages chat 0 (said 20 (codes "one") ∷ no_text ∷ []) (λ j. true)).0.messages.items
        ≡ first_message ∷ entry (said 20 (codes "one")) ∷ [])
add_messages_keeps_prefix_example =
    add_messages_keeps_prefix chat 0 (said 20 (codes "one") ∷ []) no_text [] (λ j. true)
      chat-HasValidMessages (omega arith) (refl, tt) (λ j. refl) ((refl, tt), (tt, tt)) refl
