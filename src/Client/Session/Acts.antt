-- ===== src/Client/Session/Acts.antt =====
-- The functions of psd_ims_client.h that the user's interface calls, as the steps of a state machine.
use psd_ims.Prelude.{
  List, [], ◌∷◌, suc, ℕ, Bool, true, false, ◌&&◌, ◌≡◌, Option, none, some, Text, is_some,
}
use psd_ims.Prelude.Int.{ℤ}
use psd_ims.Client.Network.{Run, Stubs}
use psd_ims.Client.Network.Sound.{can_free, text_at}
use psd_ims.Client.Session.State.{
  PsdImsClient, psd_bind_network, psd_login, psd_logout, psd_new_client, psd_set_name, psd_set_pass,
  psd_user_register, psd_user_unregister,
}
use psd_ims.Client.Session.Sending.{
  psd_add_member_to_chat, psd_create_chat, psd_del_member_from_chat, psd_quit_from_chat,
  psd_remove_chat, psd_send_friend_request, psd_send_request_accept, psd_send_request_decline,
}
use psd_ims.Client.Session.Notifications.{
  Grants, RoundGrants, psd_recv_chats, psd_recv_notifications,
}
use psd_ims.Client.Session.Fetching.{
  MessageGrants, fetch_chat, fetch_friends, fetch_pending, psd_recv_all_data, psd_recv_all_messages,
  psd_recv_all_pending_messages,
}

pub data Act : Type 0 where
  set_name set_pass bind_network : Text → (granted : Bool) → Act
  login : (name password : Text) → (net_granted granted : ℕ → Bool) → Act
  logout : (granted : ℕ → Bool) → Act
  register : (name password information : Text) → Act
  unregister : (name password : Text) → Act
  recv_all_data : (requests friends : ℕ → Bool) → Grants → Act
  recv_notifications :
      (arrays answer sync : Bool) (requests friends : ℕ → Bool) → (ℕ → ℕ → RoundGrants) → Act
  recv_messages recv_pending_messages : (chat_id : ℤ) → MessageGrants → Act
  recv_all_messages recv_all_pending_messages : (ℕ → MessageGrants) → Act
  recv_chats : Grants → Act
  recv_friends : (answer : Bool) (granted : ℕ → Bool) → Act
  make_chat : Text → (member : Option Text) → Act
  add_member del_member : Text → (chat_id : ℤ) → Act
  quit remove_chat : (chat_id : ℤ) → Act
  friend_request accept decline : Text → Act

-- A call that leaves the client as it is, and one whose result is not looked at.
abbrev pub keeping : {W X : Type 0} → PsdImsClient → Run W X → Run W PsdImsClient
keeping c m w = elim (m w) [ none ↦ none | some (x, w2) ↦ some (c, w2) ]

abbrev pub first : {W X : Type 0} → Run W (PsdImsClient × X) → Run W PsdImsClient
first m w = elim (m w) [ none ↦ none | some ((c, x), w2) ↦ some (c, w2) ]

module _ {W : Type 0} (stubs : Stubs W) where
  unfoldable pub act : Act → PsdImsClient → Run W PsdImsClient
  act (set_name name granted) c w = some ((psd_set_name c name granted).0, w)
  act (set_pass pass granted) c w = some ((psd_set_pass c pass granted).0, w)
  act (bind_network url granted) c w = some ((psd_bind_network c url granted).0, w)
  act (login name password net_granted granted) c w =
      first (psd_login stubs c name password net_granted granted) w
  act (logout granted) c w = psd_logout c granted w
  act (register name password information) c w =
      keeping c (psd_user_register stubs c name password information) w
  act (unregister name password) c w = keeping c (psd_user_unregister stubs c name password) w
  act (recv_all_data requests friends g) c w =
      first (psd_recv_all_data stubs c requests friends g) w
  act (recv_notifications arrays answer sync requests friends g) c w =
      first (psd_recv_notifications stubs c arrays answer sync requests friends g) w
  act (recv_messages chat_id g) c w = first (fetch_chat stubs c chat_id g) w
  act (recv_pending_messages chat_id g) c w = first (fetch_pending stubs c chat_id g) w
  act (recv_all_messages g) c w = first (psd_recv_all_messages stubs c g) w
  act (recv_all_pending_messages g) c w = first (psd_recv_all_pending_messages stubs c g) w
  act (recv_chats g) c w = first (psd_recv_chats stubs c g) w
  act (recv_friends answer granted) c w = first (fetch_friends stubs c answer granted) w
  act (make_chat description member) c w = keeping c (psd_create_chat stubs c description member) w
  act (add_member member chat_id) c w = keeping c (psd_add_member_to_chat stubs c member chat_id) w
  act (del_member member chat_id) c w =
      keeping c (psd_del_member_from_chat stubs c member chat_id) w
  act (quit chat_id) c w = keeping c (psd_quit_from_chat stubs c chat_id) w
  act (remove_chat chat_id) c w = some ((psd_remove_chat c chat_id).0, w)
  act (friend_request user) c w = keeping c (psd_send_friend_request stubs c user) w
  act (accept user) c w = first (psd_send_request_accept stubs c user) w
  act (decline user) c w = first (psd_send_request_decline stubs c user) w

  -- The states that a client can come to.
  pub data Reaches : PsdImsClient → W → Type 0 where
    starts :
        {c : PsdImsClient} (granted : ℕ → Bool) (w : W)
        → psd_new_client granted ≡ some c
        → Reaches c w
    goes :
        {c after : PsdImsClient} {w w2 : W} (a : Act)
        → Reaches c w
        → act a c w ≡ some (after, w2)
        → Reaches after w2

-- The four temporary arrays of each of a number of chats.
unfoldable pub all_arrays : {A : Type 0} → List A → (ℕ → MessageGrants) → ℕ → Bool
all_arrays [] g i = true
all_arrays (x ∷ xs) g i = let rest = all_arrays xs g (suc i) in (g i).arrays && rest

-- The calls that do not test whether the client is logged in go wrong after a logout; those that receive
-- messages read the user's name, and write to arrays that are not tested; a logout frees five strings.
abbrev pub safe : Act → PsdImsClient → Bool
safe (logout granted) c =
    can_free c.network.name
    && can_free c.network.password
    && can_free c.user_name
    && can_free c.user_pass
    && can_free c.user_info
    && granted 0
    && granted 1
    && granted 2
safe (recv_all_data requests friends g) c = false
safe (recv_notifications arrays answer sync requests friends g) c = arrays
safe (recv_messages chat_id g) c = is_some (text_at c.user_name) && g.arrays
safe (recv_pending_messages chat_id g) c = is_some (text_at c.user_name) && g.arrays
safe (recv_all_messages g) c = is_some (text_at c.user_name) && all_arrays c.chats.items g 0
safe (recv_all_pending_messages g) c = is_some (text_at c.user_name) && all_arrays c.chats.items g 0
safe (make_chat description member) c = c.network.logged
safe (add_member member chat_id) c = c.network.logged
safe (del_member member chat_id) c = c.network.logged
safe (quit chat_id) c = c.network.logged
safe a c = true
