-- ===== src/Server/Persistence/Notifications.antt =====
-- server/persistence.c: what has happened to a user since a time. The lists are `none` where a function
-- leaves them alone.
use psd_ims.Prelude.{◌+◌, Option, none, some, List, [], ◌∷◌, length, leb, Text, codes}
use psd_ims.Prelude.Int.{ℤ, pos}
use psd_ims.Server.Run.{
  Row, M, pure, ◌>>=◌, return_if, return_if_null, minus_one, sprintf_int, send, column, atoi,
  each_row,
}

-- `psdims__notif_chat_info`, `psdims__notif_friend_info` and `psdims__notif_member_info`.
pub record ChatTime : Type 0 where
  pub chat_id : ℤ
  pub timestamp : ℤ

pub record RequestNotice : Type 0 where
  pub name : Text
  pub send_date : ℤ

pub record MemberNotice : Type 0 where
  pub name : Text
  pub chat_id : ℤ
  pub timestamp : ℤ

abbrev pub id_row : Row → M ℤ
id_row r = do id_text ← column r 0; pure (atoi id_text)

abbrev pub time_row : Row → M ChatTime
time_row r = do
  id_text ← column r 0
  time ← column r 1
  pure (record { chat_id = atoi id_text; timestamp = atoi time })

abbrev pub request_row : Row → M RequestNotice
request_row r = do
  name ← column r 0
  date ← column r 1
  pure (record { name = name; send_date = atoi date })

abbrev pub member_row : Row → M MemberNotice
member_row r = do
  name ← column r 0
  id_text ← column r 1
  time ← column r 2
  pure (record { name = name; chat_id = atoi id_text; timestamp = atoi time })

abbrev pub select_pending : Text
select_pending =
    codes
      "select DISTINCT users_chats.ID_CHAT from users_chats INNER JOIN messages on (users_chats.ID_CHAT = messages.ID_CHAT) where (users_chats.REM_TIME = 0) and (messages.CREATION_TIME > users_chats.CREATION_TIME) and (users_chats.ID_USERS = "

unfoldable pub get_notif_chats_with_messages : (user_id timestamp : ℤ) → M (ℤ × Option (List ℤ))
unfolding each_row
get_notif_chats_with_messages user_id timestamp =
    return_if_null (minus_one, none)
      do
        str_id ← sprintf_int 20 user_id
        str_time ← sprintf_int 20 timestamp
        return_if (leb 450 (length str_id + length str_time + length select_pending))
            (minus_one, none)
            (send 500 select_pending
              (str_id ∷ codes ") and (messages.CREATION_TIME >= " ∷ str_time ∷ codes ");" ∷ [])
              (minus_one, none)
              (λ rows id. do chats ← each_row id_row rows; pure (pos 0, some chats)))

abbrev pub select_read_times : Text
select_read_times =
    codes
      "select chats.ID, chats.READ_TIME from users_chats LEFT JOIN chats on (users_chats.ID_CHAT = chats.ID) where (users_chats.ID_USERS = "

unfoldable pub get_notif_chats_read_times : ℤ → M (ℤ × Option (List ChatTime))
unfolding each_row
get_notif_chats_read_times user_id =
    return_if_null (minus_one, none)
      do
        str_id ← sprintf_int 20 user_id
        return_if (leb 450 (length str_id + length select_read_times)) (minus_one, none)
            (send 500 select_read_times (str_id ∷ codes ");" ∷ []) (minus_one, none)
              (λ rows id. do chats ← each_row time_row rows; pure (pos 0, some chats)))

abbrev pub select_requests : Text
select_requests =
    codes
      "select users.NAME, friends_request.CREATION_TIME from users INNER JOIN friends_request on (users.ID = friends_request.ID1) where (friends_request.ID2_request = '"

unfoldable pub get_notif_friend_requests :
    (user_id timestamp : ℤ) → M (ℤ × Option (List RequestNotice))
unfolding each_row
get_notif_friend_requests user_id timestamp = do
  str_id ← sprintf_int 20 user_id
  str_time ← sprintf_int 20 timestamp
  return_if_null (minus_one, none)
      (return_if (leb 450 (length str_id + length str_time + length select_requests))
        (minus_one, none)
        (send 500 select_requests
          (str_id ∷ codes "') AND (CREATION_TIME >= " ∷ str_time ∷ codes ");" ∷ [])
          (minus_one, none)
          (λ rows id. do requests ← each_row request_row rows; pure (pos 0, some requests))))

abbrev pub select_chat_members : Text
select_chat_members =
    codes
      "select users.NAME, member.ID_CHAT, member.CREATION_TIME from users_chats as member  INNER JOIN users_chats as user on (member.ID_CHAT = user.ID_CHAT) INNER JOIN users on (member.ID_USERS = users.ID)where (user.ID_USERS =  "

unfoldable pub get_notif_chat_members : (user_id timestamp : ℤ) → M (ℤ × Option (List MemberNotice))
unfolding each_row
get_notif_chat_members user_id timestamp =
    return_if_null (minus_one, none)
      do
        str_id ← sprintf_int 20 user_id
        str_time ← sprintf_int 20 timestamp
        return_if (leb 450 (length str_id + length str_time + length select_chat_members))
            (minus_one, none)
            (send 500 select_chat_members
              (str_id
                ∷ codes ") and (member.CREATION_TIME >= "
                ∷ str_time
                ∷ codes ") and (member.REM_TIME = 0);"
                ∷ [])
              (minus_one, none)
              (λ rows id. do members ← each_row member_row rows; pure (pos 0, some members)))

unfoldable pub get_notif_chat_rem_members :
    (user_id timestamp : ℤ) → M (ℤ × Option (List MemberNotice))
unfolding each_row
get_notif_chat_rem_members user_id timestamp =
    return_if_null (minus_one, none)
      do
        str_id ← sprintf_int 20 user_id
        str_time ← sprintf_int 20 timestamp
        return_if (leb 450 (length str_id + length str_time + length select_chat_members))
            (minus_one, none)
            (send 500 select_chat_members
              (str_id ∷ codes ") and (member.REM_TIME >= " ∷ str_time ∷ codes ");" ∷ [])
              (minus_one, none)
              (λ rows id. do members ← each_row member_row rows; pure (pos 0, some members)))

abbrev pub select_admins : Text
select_admins =
    codes
      "select users.NAME, chat_admin.ID, chat_admin.ADMIN_TIME from chats as chat_admin  INNER JOIN users_chats as user on (chat_admin.ID = user.ID_CHAT) INNER JOIN users on (chat_admin.ID_ADMIN = users.ID)where (user.ID_USERS =  "

unfoldable pub get_notif_chat_admins : (user_id timestamp : ℤ) → M (ℤ × Option (List MemberNotice))
unfolding each_row
get_notif_chat_admins user_id timestamp =
    return_if_null (minus_one, none)
      do
        str_id ← sprintf_int 20 user_id
        str_time ← sprintf_int 20 timestamp
        return_if (leb 450 (length str_id + length str_time + length select_admins))
            (minus_one, none)
            (send 500 select_admins
              (str_id ∷ codes ") and (chat_admin.ADMIN_TIME >= " ∷ str_time ∷ codes ");" ∷ [])
              (minus_one, none)
              (λ rows id. do admins ← each_row member_row rows; pure (pos 0, some admins)))
