-- ===== src/Client/Network/Calls.antt =====
-- client/network.c: the calls that leave the network's own state as it is.
use psd_ims.Prelude.{ℕ, Bool, Option, some, List, Text}
use psd_ims.Prelude.Int.{ℤ}
use psd_ims.Client.Session.{ReceivedMessages, ReceivedFriends, ReceivedUser}
use psd_ims.Client.Network.{
  NotifChatInfo, ReceivedChats, ReceivedNotifications, ReceivedData, Network, Run, ◌>>=◌, read,
  Stubs, printed, request, when_logged, when_granted,
}

module _ {W : Type 0} (stubs : Stubs W) (net : Network) where
  unfoldable pub net_recv_user_info : Text → (granted : Bool) → Run W (Option ReceivedUser)
  net_recv_user_info name granted =
      when_granted granted (request stubs.error_granted net (stubs.call_get_friend_info name))

  unfoldable pub net_recv_all_data : (granted : Bool) → Run W (Option ReceivedData)
  net_recv_all_data granted =
      when_granted granted (request stubs.error_granted net stubs.call_get_all_data)

  -- `sync` holds what the caller passes in two arrays; the second block is the one that they are copied to.
  unfoldable pub net_recv_notifications :
      (timestamp : ℤ) (sync : List NotifChatInfo) (granted granted_sync : Bool)
      → Run W (Option ReceivedNotifications)
  net_recv_notifications timestamp sync granted granted_sync = when_logged net (
      when_granted granted (
        when_granted granted_sync
          (request stubs.error_granted net (stubs.call_get_pending_notifications timestamp sync))))

  unfoldable pub net_recv_pending_messages :
      (chat_id timestamp : ℤ) (granted : Bool) → Run W (Option ReceivedMessages)
  net_recv_pending_messages chat_id timestamp granted = when_logged net (
      when_granted granted
        (request stubs.error_granted net (stubs.call_get_chat_messages chat_id timestamp)))

  unfoldable pub net_get_attachment :
      (chat_id msg_timestamp : ℤ) (granted : Bool) → Run W (Option (List ℕ))
  net_get_attachment chat_id msg_timestamp granted = when_logged net (
      when_granted granted
        (request stubs.error_granted net (stubs.call_get_attachment chat_id msg_timestamp)))

  unfoldable pub net_get_chat_list : (timestamp : ℤ) (granted : Bool) → Run W (Option ReceivedChats)
  net_get_chat_list timestamp granted =
      when_logged net
        (when_granted granted (request stubs.error_granted net (stubs.call_get_chats timestamp)))

  unfoldable pub net_get_friend_list :
      (timestamp : ℤ) (granted : Bool) → Run W (Option ReceivedFriends)
  net_get_friend_list timestamp granted =
      when_logged net
        (when_granted granted (request stubs.error_granted net (stubs.call_get_friends timestamp)))

  -- The two calls that bring their own credentials.
  unfoldable pub net_user_register : (name password information : Text) → Run W (Option ℤ)
  net_user_register name password information = do
    server_url ← read net.server_url
    λ w. printed stubs.error_granted (
        stubs.call_user_register server_url
          (record { name = name; password = password; information = information }) w)

  unfoldable pub net_user_unregister : (name password : Text) → Run W (Option ℤ)
  net_user_unregister name password = do
    server_url ← read net.server_url
    λ w. printed stubs.error_granted (
        stubs.call_user_unregister server_url
          (record { name = some name; password = some password }) w)

  unfoldable pub net_create_chat : Text → (member : Option Text) → Run W (Option ℤ)
  net_create_chat description member =
      request stubs.error_granted net
        (stubs.call_create_chat (record { description = description; member = member }))

  unfoldable pub net_add_user_to_chat : Text → (chat_id : ℤ) → Run W (Option ℤ)
  net_add_user_to_chat member chat_id =
      request stubs.error_granted net (stubs.call_add_member member chat_id)

  unfoldable pub net_remove_user_from_chat : Text → (chat_id : ℤ) → Run W (Option ℤ)
  net_remove_user_from_chat member chat_id =
      request stubs.error_granted net (stubs.call_remove_member member chat_id)

  unfoldable pub net_quit_from_chat : (chat_id : ℤ) → Run W (Option ℤ)
  net_quit_from_chat chat_id = request stubs.error_granted net (stubs.call_quit_from_chat chat_id)

  -- The sender's name is that of the login.
  unfoldable pub net_send_message :
      (chat_id : ℤ) → Text → (attach_name : Option Text) → Run W (Option ℤ)
  net_send_message chat_id text attach_name = when_logged net (do
    user ← read net.name
    request stubs.error_granted net (
        stubs.call_send_message chat_id
          (record { user = user; text = text; file_name = attach_name })))

  unfoldable pub net_send_attachment :
      (chat_id msg_timestamp : ℤ) (file : List ℕ) → Run W (Option ℤ)
  net_send_attachment chat_id msg_timestamp file =
      when_logged net
        (request stubs.error_granted net (stubs.call_send_attachment chat_id msg_timestamp file))

  unfoldable pub net_send_friend_request : Text → Run W (Option ℤ)
  net_send_friend_request user =
      when_logged net (request stubs.error_granted net (stubs.call_send_friend_request user))

  unfoldable pub net_send_request_accept : Text → Run W (Option ℤ)
  net_send_request_accept user =
      when_logged net (request stubs.error_granted net (stubs.call_accept_request user))

  unfoldable pub net_send_request_decline : Text → Run W (Option ℤ)
  net_send_request_decline user =
      when_logged net (request stubs.error_granted net (stubs.call_decline_request user))
