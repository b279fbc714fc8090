-- ===== src/Server/Handlers/Messaging.antt =====
-- server/psd_ims_server.c: messages, chats and what is new.
use psd_ims.Prelude.{ℕ, zero, suc, Bool, true, false, not, Option, none, some, List, [], ◌∷◌}
use psd_ims.Prelude.Int.{ℤ, pos, ltb_ℤ}
use psd_ims.Server.Run.{M, done, crash, pure, ◌>>=◌, ◌>>◌, return_if}
use psd_ims.Server.Persistence.ChatTable.{chat_exist, exist_user_in_chat}
use psd_ims.Server.Persistence.MessageTable.{
  OutMessage, MessageList, exist_timestamp_in_messages, send_messages, get_list_messages,
  update_sync,
}
use psd_ims.Server.Persistence.Lists.{
  UserInfo, ChatList, get_list_friends, get_list_chats, get_all_chat_info,
}
use psd_ims.Server.Persistence.Notifications.{
  ChatTime, RequestNotice, MemberNotice, get_notif_chats_with_messages, get_notif_chats_read_times,
  get_notif_friend_requests, get_notif_chat_members, get_notif_chat_rem_members,
  get_notif_chat_admins,
}
use psd_ims.Server.Login.{LoginInfo, SoapStatus, soap_ok, soap_user_error, Env, with_login}
use psd_ims.Server.Handlers.Account.{is_true}
use psd_ims.Server.Handlers.Membership.{is_one}

-- The loop that waits for a second in which the chat has no message: `clock i` is the time read in
-- round `i`. It is `none` where the rounds are used up.
unfoldable pub wait_for_time :
    (rounds : ℕ) → (clock : ℕ → ℤ) → (i : ℕ) → (chat_id : ℤ) → M (Option ℤ)
wait_for_time zero clock i chat_id c = done none c
wait_for_time (suc rounds) clock i chat_id c =
    elim (exist_timestamp_in_messages chat_id (clock i) c) [
      | crash ↦ crash
      | done found c' ↦ elim (is_true found) [
        | true ↦ wait_for_time rounds clock (suc i) chat_id c'
        | false ↦ done (some (clock i)) c'
      ]
    ]

-- The time that the message gets is returned with SOAP_OK. The answer is `none` if the loop is still
-- waiting when the rounds are used up.
unfoldable pub send_message :
    (rounds : ℕ)
    → (clock : ℕ → ℤ) → Env
    → (timestamp_null : Bool) → Option LoginInfo
    → (chat_id : ℤ) → Option OutMessage
    → M (Option (SoapStatus × Option ℤ))
unfolding with_login wait_for_time
send_message rounds clock env timestamp_null login chat_id none =
    pure (some (soap_user_error, none))
send_message rounds clock env timestamp_null login chat_id (some message) =
    with_login env timestamp_null login (some (soap_user_error, none)) λ id_user. do
      member ← exist_user_in_chat id_user chat_id
      return_if (not (is_one member)) (some (soap_user_error, none)) do
        found ← wait_for_time rounds clock 0 chat_id
        elim found [
          | none ↦ pure none
          | some local_time ↦ do
            code ← send_messages chat_id id_user local_time message
            return_if (is_true code) (some (soap_user_error, none))
                (pure (some (soap_ok, some local_time)))
        ]

unfoldable pub get_chat_messages :
    Env
    → (messages_null : Bool) → Option LoginInfo
    → (chat_id timestamp : ℤ) → M (SoapStatus × Option MessageList)
unfolding with_login
get_chat_messages env messages_null login chat_id timestamp =
    with_login env messages_null login (soap_user_error, none)
      λ id_user. do
        exists ← chat_exist chat_id
        return_if (not (is_one exists)) (soap_user_error, none)
            do
              member ← exist_user_in_chat id_user chat_id
              return_if (not (is_one member)) (soap_user_error, none)
                  do
                    (code, messages) ← get_list_messages chat_id id_user timestamp
                    return_if (is_true code) (soap_user_error, none) (pure (soap_ok, messages))

unfoldable pub get_chats :
    Env
    → (chats_null : Bool) → Option LoginInfo
    → (timestamp : ℤ) → M (SoapStatus × Option ChatList)
unfolding with_login
get_chats env chats_null login timestamp =
    with_login env chats_null login (soap_user_error, none)
      λ id. do
        (code, chats) ← get_list_chats id timestamp
        return_if (is_true code) (soap_user_error, none) (pure (soap_ok, chats))

-- `get_all_chat_info` returns no 1.
unfoldable pub get_chat_info :
    Env → (chat_null : Bool) → Option LoginInfo → (chat_id : ℤ) → M SoapStatus
unfolding with_login
get_chat_info env chat_null login chat_id =
    with_login env chat_null login soap_user_error λ id_user. do
      exists ← chat_exist chat_id
      return_if (not (is_one exists)) soap_user_error do
        code ← get_all_chat_info chat_id
        return_if (not (is_one code)) soap_user_error (pure soap_ok)

-- `psdims__client_data`
pub record ClientData : Type 0 where
  pub timestamp : ℤ
  pub friend_requests : Option (List RequestNotice)
  pub chats : Option ChatList
  pub friends : Option (List UserInfo)

unfoldable pub get_all_data :
    Env → (data_null : Bool) → Option LoginInfo → M (SoapStatus × Option ClientData)
unfolding with_login
get_all_data env data_null login =
    with_login env data_null login (soap_user_error, none)
      λ user_id. do
        (code, requests) ← get_notif_friend_requests user_id (pos 0)
        return_if (is_true code) (soap_user_error, none)
            do
              (code2, chats) ← get_list_chats user_id (pos 0)
              return_if (is_true code2) (soap_user_error, none)
                  do
                    (code3, friends) ← get_list_friends user_id (pos 0)
                    return_if (is_true code3) (soap_user_error, none)
                        (pure (
                          soap_ok,
                          some (record {
                            timestamp = env.now;
                            friend_requests = requests;
                            chats = chats;
                            friends = friends;
                          }),
                        ))

-- `psdims__notifications`
pub record Notifications : Type 0 where
  pub last_timestamp : ℤ
  pub chats_with_messages : Option (List ℤ)
  pub chats_read_times : Option (List ChatTime)
  pub friend_request : Option (List RequestNotice)
  pub chat_members : Option (List MemberNotice)
  pub rem_chat_members : Option (List MemberNotice)
  pub chat_admins : Option (List MemberNotice)
  pub new_friends : Option (List UserInfo)

-- The loop over `sync->chat_read_timestamps`; the codes that `update_sync` returns are dropped.
unfoldable pub sync_chats : (id_user : ℤ) → List ChatTime → M (Unit {0})
sync_chats id_user [] c = done tt c
sync_chats id_user (t ∷ ts) c = elim (update_sync id_user t.chat_id t.timestamp c) [
  | crash ↦ crash
  | done code c' ↦ sync_chats id_user ts c'
]

abbrev pub is_negative : ℤ → Bool
is_negative n = ltb_ℤ n (pos 0)

-- The seven lists that are asked for one after the other.
unfoldable pub collect : (id_user timestamp now : ℤ) → M (SoapStatus × Option Notifications)
collect id_user timestamp now = do
  (code, pending) ← get_notif_chats_with_messages id_user timestamp
  return_if (is_negative code) (soap_user_error, none)
      do
        (code2, read_times) ← get_notif_chats_read_times id_user
        return_if (is_negative code2) (soap_user_error, none)
            do
              (code3, requests) ← get_notif_friend_requests id_user timestamp
              return_if (is_negative code3) (soap_user_error, none)
                  do
                    (code4, members) ← get_notif_chat_members id_user timestamp
                    return_if (is_negative code4) (soap_user_error, none)
                        do
                          (code5, removed) ← get_notif_chat_rem_members id_user timestamp
                          return_if (is_negative code5) (soap_user_error, none)
                              do
                                (code6, admins) ← get_notif_chat_admins id_user timestamp
                                return_if (is_negative code6) (soap_user_error, none)
                                    do
                                      (code7, friends) ← get_list_friends id_user timestamp
                                      return_if (is_negative code7) (soap_user_error, none)
                                          (pure (
                                            soap_ok,
                                            some (record {
                                              last_timestamp = now;
                                              chats_with_messages = pending;
                                              chats_read_times = read_times;
                                              friend_request = requests;
                                              chat_members = members;
                                              rem_chat_members = removed;
                                              chat_admins = admins;
                                              new_friends = friends;
                                            }),
                                          ))

unfoldable pub get_pending_notifications :
    Env
    → (arguments_null : Bool) → Option LoginInfo
    → (timestamp : ℤ) → (sync : List ChatTime) → M (SoapStatus × Option Notifications)
unfolding with_login sync_chats collect
get_pending_notifications env arguments_null login timestamp sync =
    with_login env arguments_null login (soap_user_error, none)
      λ id_user. do sync_chats id_user sync; collect id_user timestamp env.now
