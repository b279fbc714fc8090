-- ===== src/Tests/Session.antt =====
-- Runs of client/psd_ims_client.c with small stand-ins for the network layer.
use psd_ims.Client.Messages.{mes_del_first_messages}
use psd_ims.ItemList.{list_delete_first}
use psd_ims.Client.Common.{delete_value}
use psd_ims.Client.Messages.{mes_add_message}
use psd_ims.Prelude.{
  ◌++◌, map, same_text, ◌≡◌, refl, true, Option, none, some, [], ◌∷◌, arith, codes,
}
use psd_ims.Prelude.Int.{ℤ, pos}
use psd_ims.ItemList.{list_delete_node, list_find_node, list_find_item, find_node, list_add_item}
use psd_ims.ItemList.Lookup.{IsMap}
use psd_ims.Client.Friends.{Friends, fri_del_friend, fri_add_friend}
use psd_ims.Client.Chats.{
  add_messages, cha_add_messages, write_chat, Chats, chat_comp, chat_id_comp, cha_find_chat,
}
use psd_ims.Client.Session.{
  ReceivedUser, keep_incoming, all_incoming, restore, ReceivedMessages, ReceivedFriends,
  recv_messages, psd_recv_messages, psd_recv_friends, add_friends, minus_one,
}
use psd_ims.Client.Session.Restore.{Restored, psd_recv_friends-Restored}
use psd_ims.Client.Chats.Hold.{by_id}
use psd_ims.Client.Session.Receive.{sent, psd_recv_messages-others}
use psd_ims.Tests.Client.{bob, carol, two_friends, two_friends-IsMap, chat}

abbrev sent_bob : ReceivedUser
sent_bob = record { name = some bob.name; information = some bob.information }

abbrev sent_carol : ReceivedUser
sent_carol = record { name = some carol.name; information = some carol.information }

-- The server sends a new friend and one that the list has already.
abbrev friends_net : (timestamp : ℤ) → Option ReceivedFriends
friends_net timestamp = some (record { user = sent_carol ∷ sent_bob ∷ []; last_timestamp = pos 30 })

-- The friends after it: `item_free` has been called for the new one.
abbrev friends_after : Friends
friends_after = record two_friends { freed = two_friends.freed ++ carol ∷ [] }

friends_refused :
    psd_recv_friends friends_net (λ i. true) two_friends ≡ some (friends_after, minus_one)
unfolding psd_recv_friends add_friends restore fri_add_friend fri_del_friend delete_value
    list_add_item list_find_node list_delete_node find_node same_text
friends_refused = refl

psd_recv_friends-Restored_example : Restored two_friends friends_after
psd_recv_friends-Restored_example =
    psd_recv_friends-Restored friends_net (λ i. true) two_friends friends_after two_friends-IsMap
      friends_refused

abbrev received : ReceivedMessages
received = record {
  messages =
      record {
        user = some (codes "alice");
        text = some (codes "yes");
        file_name = none;
        send_date = pos 20;
      }
      ∷ record {
        user = some (codes "bob");
        text = some (codes "no");
        file_name = none;
        send_date = pos 21;
      }
      ∷ [];
  last_timestamp = pos 22;
}

abbrev messages_net : (chat_id timestamp : ℤ) → Option ReceivedMessages
messages_net chat_id timestamp = some received

-- Two chats, with the ids 5 and 6.
abbrev two_chats : Chats
two_chats = record {
  items = chat ∷ record chat { id = pos 6 } ∷ [];
  list_info = record { timestamp = pos 0 };
  n_elems = 2;
  max_elems = 50;
  item_comp = some chat_comp;
  item_value_comp = some chat_id_comp;
  freed = [];
}

two_chats-IsMap : IsMap by_id two_chats
two_chats-IsMap = record {
  valid = record {
    compares = refl;
    counted = refl;
    bounded = omega arith;
    distinct = ((refl, tt), (tt, tt));
  };
  compares_key = refl;
}

-- The list after the chat 5 has got its messages.
abbrev chats_after : Chats
chats_after = record two_chats {
  items =
      (keep_incoming received (map (sent (codes "alice")) received.messages) (λ i. true) chat).0
      ∷ record chat { id = pos 6 }
      ∷ [];
}

five_received :
    psd_recv_messages (some (codes "alice")) messages_net true (λ i. true) two_chats (pos 5)
    ≡ some (chats_after, pos 2)
unfolding psd_recv_messages recv_messages all_incoming cha_find_chat write_chat list_find_item
    list_find_node find_node same_text cha_add_messages add_messages mes_add_message list_add_item
    mes_del_first_messages list_delete_first
five_received = refl

psd_recv_messages-others_example :
    cha_find_chat chats_after (pos 6) ≡ cha_find_chat two_chats (pos 6)
psd_recv_messages-others_example =
    psd_recv_messages-others (some (codes "alice")) messages_net true (λ i. true) two_chats
      chats_after (pos 5) (pos 6) (pos 2) two_chats-IsMap refl five_received
