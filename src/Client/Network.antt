-- ===== src/Client/Network.antt =====
-- client/network.c: the calls of the server. The stubs `soap_call_psdims__...`, which gSOAP generates, are
-- parameters: functions from the server's address, the credentials, their own arguments and the state
-- of the world to an answer, `none` for all but SOAP_OK, and the new state of the world.
pub mod Calls
pub mod Sound
use psd_ims.Prelude.{ℕ, Bool, true, false, ◌&&◌, Option, none, some, List, Text, if◌then◌else◌}
use psd_ims.Prelude.Int.{ℤ}
use psd_ims.ItemList.{Status, ok, failed}
use psd_ims.Client.Session.{ReceivedMessages, ReceivedFriends, ReceivedUser}

-- The structs of rpc/ims.h that travel; an array with its `__sizenelems` is a list.
-- `psdims__login_info`
pub record Credentials : Type 0 where
  pub name : Option Text
  pub password : Option Text

-- `psdims__register_info`
pub record SentRegister : Type 0 where
  pub name : Text
  pub password : Text
  pub information : Text

-- `psdims__new_chat`
pub record SentChat : Type 0 where
  pub description : Text
  pub member : Option Text

-- `psdims__message_info`, as far as the client fills it in.
pub record SentMessage : Type 0 where
  pub user : Option Text
  pub text : Text
  pub file_name : Option Text

-- `psdims__notif_chat_info`
pub record NotifChatInfo : Type 0 where
  pub chat_id : ℤ
  pub timestamp : ℤ

-- An entry of `psdims__notif_friend_list`.
pub record ReceivedRequest : Type 0 where
  pub name : Option Text
  pub timestamp : ℤ

-- `psdims__notif_member_info`
pub record NotifMemberInfo : Type 0 where
  pub name : Option Text
  pub chat_id : ℤ
  pub timestamp : ℤ

-- `psdims__chat_info`, with the names of its `psdims__member_list`.
pub record ReceivedChat : Type 0 where
  pub chat_id : ℤ
  pub description : Option Text
  pub admin : Option Text
  pub read_timestamp : ℤ
  pub all_read_timestamp : ℤ
  pub members : List (Option Text)

-- `psdims__chat_list`
pub record ReceivedChats : Type 0 where
  pub chat_info : List ReceivedChat
  pub last_timestamp : ℤ

-- `psdims__notifications`
pub record ReceivedNotifications : Type 0 where
  pub friend_request : List ReceivedRequest
  pub new_friends : List ReceivedUser
  pub chats_with_messages : List NotifChatInfo
  pub chats_read_times : List NotifChatInfo
  pub chat_members : List NotifMemberInfo
  pub rem_chat_members : List NotifMemberInfo
  pub chat_admins : List NotifMemberInfo
  pub last_timestamp : ℤ

-- `psdims__client_data`
pub record ReceivedData : Type 0 where
  pub chats : ReceivedChats
  pub friends : List ReceivedUser
  pub friend_requests : List ReceivedRequest
  pub timestamp : ℤ

-- A `char *`: `wild` is one that has been freed and not reset, or was never set, and `blank` points to a
-- block that has not been filled in.
pub data Pointer : Type 0 where
  null wild blank : Pointer
  points : Text → Pointer

-- A pointer that has been freed and not reset; NULL stays NULL.
abbrev pub after_free : Pointer → Pointer
after_free null = null
after_free wild = wild
after_free blank = wild
after_free (points t) = wild

pub record Network : Type 0 where
  pub logged : Bool
  pub name : Pointer
  pub password : Pointer
  pub server_url : Pointer

abbrev pub net_new : (granted : Bool) → Option Network
net_new granted =
    if granted
    then some (record { logged = false; name = null; password = null; server_url = null })
    else none

unfoldable pub net_bind_network : Network → Text → (granted : Bool) → Network × Status
net_bind_network net server_url granted =
    if granted
    then (record net { server_url = points server_url }, ok)
    else (record net { server_url = null }, failed)

-- What `net_login` does with the server's answer; the name and the password are copied.
unfoldable pub log_in :
    Network
    → (name password : Text) → (granted : ℕ → Bool) → Option ReceivedUser
    → Network × Option ReceivedUser
log_in net name password granted none = (net, none)
log_in net name password granted (some user_info) =
    if granted 1
    then if granted 2
      then (
        record net { name = points name; password = points password; logged = true },
        some user_info,
      )
      else (record net { name = null; password = null }, none)
    else (record net { name = null }, none)

-- What runs in a world `W`; `none` is a fault, the use of a pointer that is not fit for it.
abbrev pub Run : Type 0 → Type 0 → Type 0
Run W X = W → Option (X × W)

module _ {W : Type 0} where
  abbrev pub pure : {X : Type 0} → X → Run W X
  pure x w = some (x, w)

  infixl 5 ◌>>=◌
  abbrev pub ◌>>=◌ : {X Y : Type 0} → Run W X → (X → Run W Y) → Run W Y
  ◌>>=◌ m f w = elim (m w) [ none ↦ none | some (x, w') ↦ f x w' ]

  -- What the string at a pointer is, `none` for NULL.
  abbrev pub read : Pointer → Run W (Option Text)
  read null w = some (none, w)
  read wild w = none
  read blank w = none
  read (points t) w = some (some t, w)

  abbrev pub free : Pointer → Run W (Unit {0})
  free null w = some (tt, w)
  free wild w = none
  free blank w = some (tt, w)
  free (points t) w = some (tt, w)

  -- A result that may be a fault.
  abbrev pub lift : {X : Type 0} → Option X → Run W X
  lift none w = none
  lift (some x) w = some (x, w)

abbrev pub Stub : Type 0 → Type 0 → Type 0
Stub W A = (server_url : Option Text) → Credentials → W → Option A × W

-- The stubs; an answer is what the call writes through its last pointer. `error_granted` is what `malloc` says
-- after a call that fails, when it is asked for the 200 bytes that `soap_sprint_fault` writes.
pub record Stubs (W : Type 0) : Type 0 where
  pub call_user_register : (server_url : Option Text) → SentRegister → W → Option ℤ × W
  pub call_user_unregister : Stub W ℤ
  pub call_get_user : Stub W ReceivedUser
  pub call_get_friend_info : Text → Stub W ReceivedUser
  pub call_get_all_data : Stub W ReceivedData
  pub call_get_pending_notifications :
      (timestamp : ℤ) (sync : List NotifChatInfo) → Stub W ReceivedNotifications
  pub call_get_chat_messages : (chat_id timestamp : ℤ) → Stub W ReceivedMessages
  pub call_get_attachment : (chat_id msg_timestamp : ℤ) → Stub W (List ℕ)
  pub call_get_chats : (timestamp : ℤ) → Stub W ReceivedChats
  pub call_get_friends : (timestamp : ℤ) → Stub W ReceivedFriends
  pub call_create_chat : SentChat → Stub W ℤ
  pub call_add_member : Text → (chat_id : ℤ) → Stub W ℤ
  pub call_remove_member : Text → (chat_id : ℤ) → Stub W ℤ
  pub call_quit_from_chat : (chat_id : ℤ) → Stub W ℤ
  pub call_send_message : (chat_id : ℤ) → SentMessage → Stub W ℤ
  pub call_send_attachment : (chat_id msg_timestamp : ℤ) (file : List ℕ) → Stub W ℤ
  pub call_send_friend_request : Text → Stub W ℤ
  pub call_accept_request : Text → Stub W ℤ
  pub call_decline_request : Text → Stub W ℤ
  pub error_granted : W → Bool

module _ {W : Type 0} where
  -- A call that fails has its fault printed, through a pointer that is not tested.
  abbrev pub printed : {A : Type 0} → (W → Bool) → Option A × W → Option (Option A × W)
  printed error_granted (none, w) = if error_granted w then some (none, w) else none
  printed error_granted (some x, w) = some (some x, w)

  -- A stub with the address and the credentials of the network.
  abbrev pub request : {A : Type 0} → (W → Bool) → Network → Stub W A → Run W (Option A)
  request error_granted net stub = do
    server_url ← read net.server_url
    name ← read net.name
    password ← read net.password
    λ w. printed error_granted (stub server_url (record { name = name; password = password }) w)

  -- The test that some calls begin with; -1 or NULL is `none`.
  abbrev pub when_logged : {A : Type 0} → Network → Run W (Option A) → Run W (Option A)
  when_logged net m w = if net.logged then m w else some (none, w)

  -- The `malloc` for the answer.
  abbrev pub when_granted : {A : Type 0} → Bool → Run W (Option A) → Run W (Option A)
  when_granted granted m w = if granted then m w else some (none, w)

  unfoldable pub net_free : Network → Run W (Unit {0})
  net_free net = do u ← free net.server_url; n ← free net.name; free net.password

  -- `granted` is asked for the answer, then for the name, then for the password.
  unfoldable pub net_login :
      Stubs W
      → Network
      → (name password : Text) → (granted : ℕ → Bool) → Run W (Network × Option ReceivedUser)
  unfolding log_in
  net_login stubs net name password granted w =
      if granted 0
      then (do
        server_url ← read net.server_url
        answer ← λ w. printed stubs.error_granted (
            stubs.call_get_user server_url (record { name = some name; password = some password })
              w)
        pure (log_in net name password granted answer))
          w
      else some ((net, none), w)

  -- The two pointers are freed and not reset.
  unfoldable pub net_logout : Network → Run W Network
  net_logout net = do
    n ← free net.name
    p ← free net.password
    pure (record net {
      logged = false;
      name = after_free net.name;
      password = after_free net.password;
    })
