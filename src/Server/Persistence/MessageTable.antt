-- ===== src/Server/Persistence/MessageTable.antt =====
-- server/persistence.c: the messages, their attached files, and the times up to which they are read.
use psd_ims.Prelude.{
  zero, suc, ◌+◌, ◌*◌, Option, none, some, List, [], ◌∷◌, ◌++◌, length, leb, Text, codes,
  if◌then◌else◌,
}
use psd_ims.Prelude.Int.{ℤ, pos, negsuc, ltb_ℤ}
use psd_ims.Server.Run.{
  done, crash, Row, M, pure, ◌>>=◌, return_if, return_if_null, minus_one, sprintf_int, strcats,
  mysql_query, send, column, nth_column, refused, stored, atoi, each_row,
}

-- `mysql_num_rows`, with no bound of the length of the query, whose parts are two numbers.
unfoldable pub exist_timestamp_in_messages : (chat_id timestamp : ℤ) → M ℤ
exist_timestamp_in_messages chat_id timestamp = do
  str_chat ← sprintf_int 20 chat_id
  str_time ← sprintf_int 20 timestamp
  send 200 (codes "SELECT CREATION_TIME from messages where ((ID_CHAT = ")
      (str_chat ∷ codes ") and (CREATION_TIME = " ∷ str_time ∷ codes "));" ∷ []) minus_one
      (λ rows id. pure (pos (length rows)))

-- The part of `psdims__message_info` that the server reads: a string is `none` for NULL.
pub record OutMessage : Type 0 where
  pub text : Option Text
  pub file_name : Option Text

abbrev pub insert_message : Text
insert_message =
    codes "INSERT INTO messages(ID_SENDER, ID_CHAT, FILE_, TEXT, CREATION_TIME) VALUES("

abbrev pub file_pieces : Option Text → List Text
file_pieces none = codes ", NULL ,'" ∷ []
file_pieces (some name) = codes ",'" ∷ name ∷ codes "','" ∷ []

-- The length of `file_name` is not in the test. A text that is NULL is a crash when its length is taken.
unfoldable pub send_messages : (chat_id user_id timestamp : ℤ) → OutMessage → M ℤ
send_messages chat_id user_id timestamp message = do
  str_id ← sprintf_int 20 user_id
  str_chat ← sprintf_int 20 chat_id
  str_time ← sprintf_int 20 timestamp
  return_if_null minus_one (elim message.text [
    | none ↦ λ c. crash
    | some text ↦
        return_if
          (leb 190 (
            length insert_message
            + length str_id
            + length str_chat
            + length str_time
            + length text))
          minus_one
          (send 200 insert_message
            (str_id
              ∷ codes ","
              ∷ str_chat
              ∷ (file_pieces message.file_name ++ (text ∷ codes "'," ∷ str_time ∷ codes ");" ∷ [])))
            minus_one (λ rows id. pure (pos 0)))
  ])

-- One message of `psdims__message_list`.
pub record MessageEntry : Type 0 where
  pub user : Text
  pub text : Text
  pub file_name : Option Text
  pub send_date : ℤ

pub record MessageList : Type 0 where
  pub last_timestamp : ℤ
  pub messages : List MessageEntry

-- `messages->last_timestamp++`: undefined for the largest `int`.
abbrev pub increment : ℤ → M ℤ
increment (pos n) c = if leb 2_147_483_647 n then crash else done (pos (n + 1)) c
increment (negsuc zero) c = done (pos 0) c
increment (negsuc (suc n)) c = done (negsuc n) c

-- `last_timestamp` as the loop leaves it.
unfoldable pub latest : ℤ → List ℤ → ℤ
latest t [] = t
latest t (d ∷ ds) = latest (if ltb_ℤ t d then d else t) ds

abbrev pub dates : List MessageEntry → List ℤ
dates [] = []
dates (m ∷ ms) = m.send_date ∷ dates ms

abbrev pub message_row : Row → M MessageEntry
message_row r = do
  user ← column r 0
  text ← column r 1
  date ← column r 2
  pure (record { user = user; text = text; file_name = nth_column r 3; send_date = atoi date })

abbrev pub select_messages : Text
select_messages =
    codes
      "SELECT DISTINCT users.NAME, messages.TEXT, messages.CREATION_TIME, messages.FILE_ FROM messages LEFT JOIN users_chats on ( messages.ID_CHAT = users_chats.ID_CHAT) LEFT JOIN users on (messages.ID_SENDER = users.ID) where (messages.CREATION_TIME > users_chats.CREATION_TIME AND messages.ID_CHAT = "

-- The list is `none` where the function leaves it alone.
unfoldable pub get_list_messages : (chat_id user_id timestamp : ℤ) → M (ℤ × Option MessageList)
unfolding latest each_row
get_list_messages chat_id user_id timestamp = do
  str_chat_id ← sprintf_int 20 chat_id
  str_id ← sprintf_int 20 user_id
  str_time ← sprintf_int 20 timestamp
  return_if_null (minus_one, none)
      (return_if (leb 450 (length str_id + length str_time + length select_messages))
        (minus_one, none)
        (send 500 select_messages
          (str_chat_id
            ∷ codes " AND messages.CREATION_TIME >= "
            ∷ str_time
            ∷ codes " AND users_chats.ID_USERS = "
            ∷ str_id
            ∷ codes ");"
            ∷ [])
          (minus_one, none)
          (λ rows id. do
            messages ← each_row message_row rows
            last ← increment (latest timestamp (dates messages))
            pure (pos 0, some (record { last_timestamp = last; messages = messages })))))

abbrev pub select_file : Text
select_file = codes "SELECT FILE_ FROM messages WHERE ("

-- `(mysql_num_rows(res) == 1)? 1 : 0`
abbrev pub one_row : List Row → ℤ
one_row [] = pos 0
one_row (r ∷ []) = pos 1
one_row (r ∷ s ∷ rs) = pos 0

unfoldable pub message_can_attach : (user_id chat_id msg_timestamp : ℤ) → M ℤ
message_can_attach user_id chat_id msg_timestamp = return_if_null minus_one do
  str_id ← sprintf_int 10 user_id
  str_time ← sprintf_int 10 msg_timestamp
  str_chat_id ← sprintf_int 10 chat_id
  return_if (leb 150 (length str_id + length str_chat_id + length str_time + length select_file))
      minus_one
      (send 200 select_file
        (codes " ID_SENDER = "
          ∷ str_id
          ∷ codes " and ID_CHAT = "
          ∷ str_chat_id
          ∷ codes " and CREATION_TIME = "
          ∷ str_time
          ∷ codes ");"
          ∷ [])
        minus_one (λ rows id. pure (one_row rows)))

abbrev pub select_attach : Text
select_attach =
    codes
      "SELECT messages.FILE_ FROM users_chats LEFT JOIN messages on (users_chats.ID_CHAT = messages.ID_CHAT and messages.CREATION_TIME >= users_chats.CREATION_TIME) WHERE ("

unfoldable pub message_have_attach : (user_id chat_id msg_timestamp : ℤ) → M ℤ
message_have_attach user_id chat_id msg_timestamp = return_if_null minus_one do
  str_id ← sprintf_int 10 user_id
  str_time ← sprintf_int 10 msg_timestamp
  str_chat_id ← sprintf_int 10 chat_id
  return_if (leb 450 (length str_id + length str_chat_id + length str_time + length select_attach))
      minus_one
      (send 500 select_attach
        (codes " users_chats.ID_USERS = "
          ∷ str_id
          ∷ codes " and messages.ID_CHAT = "
          ∷ str_chat_id
          ∷ codes " and messages.CREATION_TIME = "
          ∷ str_time
          ∷ codes ");"
          ∷ [])
        minus_one (λ rows id. pure (one_row rows)))

abbrev pub update_read_msg : Text
update_read_msg = codes "UPDATE users_chats set READ_MSG_TIME = "

abbrev pub update_read_time : Text
update_read_time = codes "UPDATE chats set READ_TIME = "

-- Both texts are built before the first query goes out.
unfoldable pub update_sync : (user_id chat_id read_timestamp : ℤ) → M ℤ
unfolding strcats
update_sync user_id chat_id read_timestamp = return_if_null minus_one do
  str_timestamp ← sprintf_int 10 read_timestamp
  str_id ← sprintf_int 10 user_id
  str_id_chat ← sprintf_int 10 chat_id
  return_if
      (leb 150 (length str_id + length str_timestamp + length str_id_chat + length update_read_msg))
      minus_one
      (return_if (leb 150 (length str_id_chat + length str_timestamp * 2 + length update_read_time))
        minus_one
        do
          consulta ← strcats 200 update_read_msg (
              str_timestamp
              ∷ codes " where ((ID_USERS = "
              ∷ str_id
              ∷ codes ") AND (ID_CHAT ="
              ∷ str_id_chat
              ∷ codes ") AND (READ_MSG_TIME < "
              ∷ str_timestamp
              ∷ codes "));"
              ∷ [])
          consulta2 ← strcats 200 update_read_time (
              str_timestamp
              ∷ codes " where ID = "
              ∷ str_id_chat
              ∷ codes " and ID NOT IN (select ID_CHAT from users_chats where READ_MSG_TIME < "
              ∷ str_timestamp
              ∷ codes " AND REM_TIME = 0);"
              ∷ [])
          first ← mysql_query consulta
          elim first [
            | refused ↦ pure minus_one
            | stored rows id ↦ do
              second ← mysql_query consulta2
              elim second [ refused ↦ pure minus_one | stored rows2 id2 ↦ pure (pos 0) ]
          ])
