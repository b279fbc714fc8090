-- ===== src/Client/Session/Reach.antt =====
-- The states that the client of client/psd_ims_client.c can come to.
use psd_ims.Prelude.{ℕ, ◌≡◌, refl, Bool, true, false, Option, none, some, Text}
use mathlib.Core.Path.{subst}
use psd_ims.Prelude.Int.{ℤ}
use psd_ims.Client.Friends.{Friends}
use psd_ims.Client.Requests.{FriendRequests}
use psd_ims.Client.Chats.{Chats}
use psd_ims.Client.Chats.Hold.{cha_del_chat-ChatsHold}
use psd_ims.Client.Network.{points, Stubs}
use psd_ims.Client.Network.Calls.{net_send_request_accept, net_send_request_decline}
use psd_ims.Client.Network.Sound.{net_bind_network-Sound}
use psd_ims.Client.Session.State.{
  new_client, PsdImsClient, new_lists, psd_bind_network, psd_new_client, psd_set_name, psd_set_pass,
}
use psd_ims.Client.Session.Sending.{
  forget_request, psd_remove_chat, psd_send_request_accept, psd_send_request_decline,
}
use psd_ims.Client.Session.Acts
use psd_ims.Client.Session.Acts.{Act, Reaches, act, first, goes, keeping, starts}
use psd_ims.Client.Session.Holds.{with_chats, Holds, req_del_request-IsMap}
use psd_ims.Client.Session.Rounds.{
  After, After-bind, HoldsFirst, first-After, keeping-After, psd_recv_chats-Holds,
}
use psd_ims.Client.Session.FetchedMessages.{
  fetch_chat-Holds, fetch_friends-Holds, fetch_pending-Holds, psd_recv_all_messages-Holds,
  psd_recv_all_pending_messages-Holds,
}
use psd_ims.Client.Session.FetchedData.{psd_recv_all_data-Holds}
use psd_ims.Client.Session.Signing.{
  same_lists, AllNew, new_lists-AllNew, psd_recv_notifications-Holds, psd_login-Holds,
  psd_logout-Holds,
}

-- What holds of a client, if there is one.
abbrev Made : Option PsdImsClient → Type 0
Made none = Unit
Made (some c) = Holds c

new_client-Made :
    (r : Option (Friends × FriendRequests × Chats)) (granted_network granted : Bool)
    → AllNew r
    → Made (new_client r granted_network granted)
new_client-Made none granted_network granted k = tt
new_client-Made (some (friends, requests, chats)) false granted k = tt
new_client-Made (some (friends, requests, chats)) true false k = tt
new_client-Made (some (friends, requests, chats)) true true k = record {
  friends = k.friends_map;
  requests = k.requests_map;
  chats = k.chats_hold;
  network = record { server_url = refl; name = λ h. refl; password = λ h. refl };
}

new_client-Holds :
    (granted : ℕ → Bool) (c : PsdImsClient) → psd_new_client granted ≡ some c → Holds c
unfolding psd_new_client
new_client-Holds granted c e = subst Made e (
    new_client-Made (new_lists (granted 0) (granted 1) (granted 2)) (granted 3) (granted 4)
      (new_lists-AllNew (granted 0) (granted 1) (granted 2)))

set_name-Holds :
    (c : PsdImsClient) (name : Text) (granted : Bool)
    → Holds c
    → Holds (psd_set_name c name granted).0
unfolding psd_set_name
set_name-Holds c name true h = same_lists c (points name) c.user_pass c.user_info h
set_name-Holds c name false h = h

set_pass-Holds :
    (c : PsdImsClient) (pass : Text) (granted : Bool)
    → Holds c
    → Holds (psd_set_pass c pass granted).0
unfolding psd_set_pass
set_pass-Holds c pass true h = same_lists c c.user_name (points pass) c.user_info h
set_pass-Holds c pass false h = h

bind_network-Holds :
    (c : PsdImsClient) (url : Text) (granted : Bool)
    → Holds c
    → Holds (psd_bind_network c url granted).0
unfolding psd_bind_network
bind_network-Holds c url granted h = record {
  friends = h.friends;
  requests = h.requests;
  chats = h.chats;
  network = net_bind_network-Sound c.network url granted h.network;
}

remove_chat-Holds : (c : PsdImsClient) (chat_id : ℤ) → Holds c → Holds (psd_remove_chat c chat_id).0
unfolding psd_remove_chat
remove_chat-Holds c chat_id h = with_chats c _ h (cha_del_chat-ChatsHold c.chats chat_id h.chats)

module _ {W : Type 0} (stubs : Stubs W) where
  forget_request-Holds :
      (c : PsdImsClient) (user : Text) (answer : Option ℤ)
      → Holds c
      → HoldsFirst (forget_request stubs c user answer)
  forget_request-Holds c user none h = h
  forget_request-Holds c user (some date) h = record {
    friends = h.friends;
    requests = req_del_request-IsMap c.requests user h.requests;
    chats = h.chats;
    network = h.network;
  }

  accept-Holds :
      (c : PsdImsClient) (user : Text) (w : W)
      → Holds c
      → After HoldsFirst (psd_send_request_accept stubs c user w)
  unfolding psd_send_request_accept
  accept-Holds c user w h =
      After-bind HoldsFirst (net_send_request_accept stubs c.network user w) _
        (λ answer w2. forget_request-Holds c user answer h)

  decline-Holds :
      (c : PsdImsClient) (user : Text) (w : W)
      → Holds c
      → After HoldsFirst (psd_send_request_decline stubs c user w)
  unfolding psd_send_request_decline
  decline-Holds c user w h =
      After-bind HoldsFirst (net_send_request_decline stubs c.network user w) _
        (λ answer w2. forget_request-Holds c user answer h)

  act-Holds : (a : Act) (c : PsdImsClient) (w : W) → Holds c → After Holds (act stubs a c w)
  unfolding act
  act-Holds (Acts.set_name name granted) c w h = set_name-Holds c name granted h
  act-Holds (Acts.set_pass pass granted) c w h = set_pass-Holds c pass granted h
  act-Holds (Acts.bind_network url granted) c w h = bind_network-Holds c url granted h
  act-Holds (Acts.login name password net_granted granted) c w h =
      first-After Holds _ (psd_login-Holds stubs c name password net_granted granted w h)
  act-Holds (Acts.logout granted) c w h = psd_logout-Holds stubs c granted w h
  act-Holds (Acts.register name password information) c w h = keeping-After Holds c _ h
  act-Holds (Acts.unregister name password) c w h = keeping-After Holds c _ h
  act-Holds (Acts.recv_all_data requests friends g) c w h =
      first-After Holds _ (psd_recv_all_data-Holds stubs c requests friends g w h)
  act-Holds (Acts.recv_notifications arrays answer sync requests friends g) c w h =
      first-After Holds _
        (psd_recv_notifications-Holds stubs c arrays answer sync requests friends g w h)
  act-Holds (Acts.recv_messages chat_id g) c w h =
      first-After Holds _ (fetch_chat-Holds stubs c chat_id g w h)
  act-Holds (Acts.recv_pending_messages chat_id g) c w h =
      first-After Holds _ (fetch_pending-Holds stubs c chat_id g w h)
  act-Holds (Acts.recv_all_messages g) c w h =
      first-After Holds _ (psd_recv_all_messages-Holds stubs c g w h)
  act-Holds (Acts.recv_all_pending_messages g) c w h =
      first-After Holds _ (psd_recv_all_pending_messages-Holds stubs c g w h)
  act-Holds (Acts.recv_chats g) c w h = first-After Holds _ (psd_recv_chats-Holds stubs c g w h)
  act-Holds (Acts.recv_friends answer granted) c w h =
      first-After Holds _ (fetch_friends-Holds stubs c answer granted w h)
  act-Holds (Acts.make_chat description member) c w h = keeping-After Holds c _ h
  act-Holds (Acts.add_member member chat_id) c w h = keeping-After Holds c _ h
  act-Holds (Acts.del_member member chat_id) c w h = keeping-After Holds c _ h
  act-Holds (Acts.quit chat_id) c w h = keeping-After Holds c _ h
  act-Holds (Acts.remove_chat chat_id) c w h = remove_chat-Holds c chat_id h
  act-Holds (Acts.friend_request user) c w h = keeping-After Holds c _ h
  act-Holds (Acts.accept user) c w h = first-After Holds _ (accept-Holds c user w h)
  act-Holds (Acts.decline user) c w h = first-After Holds _ (decline-Holds c user w h)

  pub Reaches-Holds : (c : PsdImsClient) (w : W) → Reaches stubs c w → Holds c
  Reaches-Holds c w (starts granted _ e) = new_client-Holds granted c e
  Reaches-Holds c w (goes {c = before} {w = w0} a r e) =
      subst (After Holds) e (act-Holds a before w0 (Reaches-Holds before w0 r))
