-- ===== src/Tests/Account.antt =====
-- Runs of the client of client/psd_ims_client.c against a small server, whose world is the number of calls.
use psd_ims.Client.Session.Whole.{Complete}
use mathlib.Core.Path.{subst}
use psd_ims.Prelude.{
  WhenSome, ℕ, suc, ◌≡◌, refl, Bool, true, false, Option, none, some, [], ◌∷◌, codes,
}
use psd_ims.Prelude.Int.{pos}
use psd_ims.ItemList.{ok, list_new, list_add_item, find_node}
use psd_ims.ItemList.Ring.Life.{empty_list}
use psd_ims.Client.Friends.{fri_new}
use psd_ims.Client.Requests.{req_new, req_add_request}
use psd_ims.Client.Chats.{cha_new}
use psd_ims.Client.Chats.Hold.{by_id}
use psd_ims.Client.Network.{
  wild, Stub, Stubs, ReceivedNotifications, points, null, net_login, log_in,
}
use psd_ims.Client.Network.Calls.{net_recv_notifications}
use psd_ims.Client.Session.Restore.{by_friend}
use psd_ims.Client.Session.State.{
  max_messages, max_members, PsdImsClient, psd_new_client, psd_login, keep_login, max_friends,
  max_friend_requests, max_chats,
}
use psd_ims.Client.Session.Sending.{psd_send_request_accept}
use psd_ims.Client.Session.Notifications.{
  chat_loops, RoundGrants, psd_recv_notifications, keep_notifications, add_requests,
  add_new_friends, for_chats,
}
use psd_ims.ItemList.{list_find_item}
use psd_ims.Client.Network.{ReceivedChats}
use psd_ims.Client.Session.Marked.{Notified, psd_recv_notifications-Notified}
use psd_ims.Client.Session.Notifications.{keep_chats, add_chats, sync_of}
use psd_ims.Client.Session.Holds.{keep_chats-Holds}
use psd_ims.Client.Chats.{cha_add_chat}
use psd_ims.Client.Friends.{fri_find_friend}
use psd_ims.Client.Session.Acts
use psd_ims.Client.Session.Acts.{Reaches, starts, goes, act, safe}
use psd_ims.Client.Session.Holds.{Holds, by_request}
use psd_ims.Client.Session.Reach.{Reaches-Holds}
use psd_ims.Client.Session.Refusals.{act-not_logged}
use psd_ims.Client.Session.Logins.{LoggedIn, psd_login-LoggedIn}
use psd_ims.Client.Session.Answers.{Answered, psd_send_request_accept-Answered}

abbrev bob_asks : ReceivedNotifications
bob_asks = record {
  friend_request = record { name = some (codes "bob"); timestamp = pos 4 } ∷ [];
  new_friends = [];
  chats_with_messages = [];
  chats_read_times = [];
  chat_members = [];
  rem_chat_members = [];
  chat_admins = [];
  last_timestamp = pos 5;
}

abbrev counts : {A : Type 0} → Option A → Stub ℕ A
counts answer url login w = (answer, suc w)

abbrev server : Stubs ℕ
server = record {
  call_user_register = λ url info w. (some (pos 0), suc w);
  call_user_unregister = counts (some (pos 0));
  call_get_user =
      counts (some (record { name = some (codes "alice"); information = some (codes "hi") }));
  call_get_friend_info = λ name. counts none;
  call_get_all_data = counts none;
  call_get_pending_notifications = λ t sync. counts (some bob_asks);
  call_get_chat_messages = λ id t. counts none;
  call_get_attachment = λ id t. counts none;
  call_get_chats = λ t. counts none;
  call_get_friends = λ t. counts none;
  call_create_chat = λ chat. counts (some (pos 1));
  call_add_member = λ name id. counts (some (pos 0));
  call_remove_member = λ name id. counts (some (pos 0));
  call_quit_from_chat = λ id. counts (some (pos 0));
  call_send_message = λ id m. counts (some (pos 9));
  call_send_attachment = λ id t file. counts (some (pos 0));
  call_send_friend_request = λ name. counts (some (pos 9));
  call_accept_request = λ name. counts (some (pos 9));
  call_decline_request = λ name. counts (some (pos 9));
  error_granted = λ w. true;
}

abbrev yes : ℕ → Bool
yes i = true

abbrev new_c : PsdImsClient
new_c = record {
  user_name = null;
  user_pass = null;
  user_info = wild;
  last_connection = pos 0;
  last_notif_timestamp = pos 0;
  network = record { logged = false; name = null; password = null; server_url = null };
  friends = empty_list by_friend (record { timestamp = pos 0 }) max_friends;
  requests = empty_list by_request (record { timestamp = pos 0 }) max_friend_requests;
  chats = empty_list by_id (record { timestamp = pos 0 }) max_chats;
}

abbrev alice_in : PsdImsClient
alice_in = record new_c {
  user_name = points (codes "alice");
  user_pass = points (codes "pw");
  user_info = points (codes "hi");
  network = record {
    logged = true;
    name = points (codes "alice");
    password = points (codes "pw");
    server_url = null;
  };
}

abbrev asked : PsdImsClient
asked = record alice_in {
  last_notif_timestamp = pos 5;
  requests = record new_c.requests {
    items = record { name = codes "bob"; timestamp = pos 4 } ∷ [];
    n_elems = 1;
  };
}

new_c-made : psd_new_client yes ≡ some new_c
unfolding psd_new_client fri_new req_new cha_new list_new
new_c-made = refl

alice_logs_in :
    psd_login server new_c (codes "alice") (codes "pw") yes yes 0 ≡ some ((alice_in, ok), 1)
unfolding psd_login net_login log_in keep_login
alice_logs_in = refl

alice_in-acts :
    act server (Acts.login (codes "alice") (codes "pw") yes yes) new_c 0 ≡ some (alice_in, 1)
unfolding act psd_login net_login log_in keep_login
alice_in-acts = refl

abbrev grants : ℕ → ℕ → RoundGrants
grants k i = record { fetch = record { answer = true; arrays = yes; blocks = yes }; entry = true }

asked-acts :
    act server (Acts.recv_notifications true true true yes yes grants) alice_in 1 ≡ some (asked, 2)
unfolding act psd_recv_notifications net_recv_notifications keep_notifications chat_loops for_chats
    add_requests add_new_friends req_add_request list_add_item find_node
asked-acts = refl

asked-Reaches : Reaches server asked 2
asked-Reaches =
    goes (Acts.recv_notifications true true true yes yes grants)
      (goes (Acts.login (codes "alice") (codes "pw") yes yes) (starts yes 0 new_c-made)
        alice_in-acts)
      asked-acts

new_c-Holds : Holds new_c
new_c-Holds = Reaches-Holds server new_c 0 (starts yes 0 new_c-made)

act-not_logged_example : act server (Acts.accept (codes "bob")) new_c 7 ≡ some (new_c, 7)
act-not_logged_example =
    act-not_logged server (Acts.accept (codes "bob")) new_c 7 new_c-Holds refl refl

psd_login-LoggedIn_example : LoggedIn alice_in (codes "alice") (codes "pw")
psd_login-LoggedIn_example =
    psd_login-LoggedIn server new_c alice_in (codes "alice") (codes "pw") yes yes 0 1 alice_logs_in

abbrev world : ℕ
world = 2

abbrev alice_out : PsdImsClient
alice_out = record new_c {
  user_info = null;
  network = record { logged = false; name = wild; password = wild; server_url = null };
}

asked-Holds : Holds asked
asked-Holds = Reaches-Holds server asked 2 asked-Reaches

psd_send_request_accept-Answered_example :
    Answered asked
      (codes "bob")
      server.error_granted
      (some (pos 9), 3)
      (psd_send_request_accept server asked (codes "bob") 2)
psd_send_request_accept-Answered_example =
    psd_send_request_accept-Answered server asked (codes "bob") 2 asked-Holds refl

abbrev one_chat : ReceivedChats
one_chat = record {
  chat_info =
      record {
        chat_id = pos 5;
        description = some (codes "talk");
        admin = some (codes "alice");
        read_timestamp = pos 0;
        all_read_timestamp = pos 0;
        members = some (codes "alice") ∷ some (codes "bob") ∷ [];
      }
      ∷ [];
  last_timestamp = pos 3;
}

-- The client once it knows the chat 5.
abbrev chatty : PsdImsClient
chatty = record alice_in {
  chats =
      record (cha_add_chat alice_in.chats (pos 5) (codes "talk") (codes "alice")
        ((codes "alice", none) ∷ (codes "bob", none) ∷ []) max_members max_messages (pos 0) (pos 0)
        true).0 { list_info = record { timestamp = pos 3 } };
}

one_chat_kept : keep_chats alice_in (some one_chat) (grants 0 0).fetch ≡ some (chatty, some 1)
unfolding keep_chats add_chats fri_find_friend list_find_item find_node
one_chat_kept = refl

alice_in-Holds : Holds alice_in
alice_in-Holds =
    Reaches-Holds server alice_in 1 (
      goes (Acts.login (codes "alice") (codes "pw") yes yes) (starts yes 0 new_c-made)
        alice_in-acts)

chatty-Holds : Holds chatty
chatty-Holds =
    subst (WhenSome (λ x. Holds x.0)) one_chat_kept
      (keep_chats-Holds alice_in (some one_chat) (grants 0 0).fetch alice_in-Holds)

-- News of the chat 5, and of one that nobody knows.
abbrev news : ReceivedNotifications
news = record bob_asks {
  chats_with_messages =
      record { chat_id = pos 5; timestamp = pos 4 }
      ∷ record { chat_id = pos 6; timestamp = pos 4 }
      ∷ [];
}

abbrev news_server : Stubs ℕ
news_server = record server { call_get_pending_notifications = λ t sync. counts (some news) }

news-Complete : Complete news_server
news-Complete = record {
  errors = λ w. refl;
  users = λ url login w. refl;
  news = λ t sync url login w. record {
    requests = (refl, tt);
    friends = tt;
    members = tt;
    rem_members = tt;
    admins = tt;
  };
  chats = λ t url login w. tt;
  friends = λ t url login w. tt;
  messages = λ id t url login w. tt;
}

news_come :
    net_recv_notifications news_server chatty.network chatty.last_notif_timestamp
      (sync_of chatty.chats)
      true
      true
      2
    ≡ some (some news, 3)
unfolding net_recv_notifications
news_come = refl

psd_recv_notifications-Notified_example :
    Notified chatty news (psd_recv_notifications news_server chatty true true true yes yes grants 2)
psd_recv_notifications-Notified_example =
    psd_recv_notifications-Notified news_server chatty true true yes yes grants 2 3 news
      news-Complete chatty-Holds news_come
