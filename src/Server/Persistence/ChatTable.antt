-- ===== src/Server/Persistence/ChatTable.antt =====
-- server/persistence.c: the chats and their members.
use psd_ims.Prelude.{ℕ, ◌+◌, [], ◌∷◌, length, leb, Text, codes, if◌then◌else◌}
use psd_ims.Prelude.Int.{ℤ, pos}
use psd_ims.Server.Run.{
  M, pure, ◌>>=◌, return_if, return_if_null, minus_one, sprintf_int, send, has_rows, column,
  fetch_row, atoi,
}

abbrev pub select_admin_id : Text
select_admin_id = codes "SELECT ID_ADMIN FROM chats where ID = '"

unfoldable pub get_id_admin_chat : ℤ → M ℤ
unfolding atoi
get_id_admin_chat id_chat = do
  str_id ← sprintf_int 20 id_chat
  return_if_null minus_one (
      return_if (leb 500 (length str_id + length select_admin_id + 2)) minus_one (
        send 500 select_admin_id (str_id ∷ codes "';" ∷ []) minus_one (λ rows id. elim rows [
          | [] ↦ pure minus_one
          | r ∷ rs ↦ do id_text ← column r 0; pure (atoi id_text)
        ])))

abbrev pub select_description : Text
select_description = codes "SELECT DESCRIPTION FROM chats where ID = '"

unfoldable pub get_chat_info : ℤ → (buff : Text) → (max_chars : ℕ) → M (ℤ × Text)
get_chat_info chat_id buff max_chars = do
  str_id ← sprintf_int 20 chat_id
  return_if_null (minus_one, buff)
      (return_if (leb 190 (length str_id + length select_description)) (minus_one, buff)
        (send 200 select_description (str_id ∷ codes "';" ∷ []) (minus_one, buff)
          (λ rows id. elim rows [
            | [] ↦ pure (minus_one, buff)
            | r ∷ rs ↦ do
              text ← column r 0
              if leb max_chars (length text) then pure (minus_one, buff) else pure (pos 0, text)
          ])))

abbrev pub select_user_chat : Text
select_user_chat = codes "SELECT * FROM users_chats where ((ID_USERS = "

unfoldable pub exist_user_in_chat : (user_id chat_id : ℤ) → M ℤ
exist_user_in_chat user_id chat_id = do
  str_id ← sprintf_int 20 user_id
  str_chat ← sprintf_int 20 chat_id
  return_if_null minus_one (
      return_if (leb 190 (length str_id + length select_user_chat)) minus_one (
        send 200 select_user_chat
          (str_id ∷ codes ") AND (ID_CHAT = " ∷ str_chat ∷ codes ") AND (REM_TIME = 0));" ∷ [])
          minus_one (λ rows id. pure (has_rows rows))))

unfoldable pub exist_user_entry_in_chat : (user_id chat_id : ℤ) → M ℤ
exist_user_entry_in_chat user_id chat_id = do
  str_id ← sprintf_int 20 user_id
  str_chat ← sprintf_int 20 chat_id
  return_if_null minus_one (
      return_if (leb 190 (length str_id + length select_user_chat)) minus_one (
        send 200 select_user_chat (str_id ∷ codes ") AND (ID_CHAT = " ∷ str_chat ∷ codes "));" ∷ [])
          minus_one (λ rows id. pure (has_rows rows))))

abbrev pub select_chat : Text
select_chat = codes "SELECT * FROM chats where ((ID = '"

unfoldable pub chat_exist : ℤ → M ℤ
chat_exist chat_id = do
  str_chat ← sprintf_int 20 chat_id
  return_if_null minus_one (
      return_if (leb 190 (length str_chat + length select_chat)) minus_one (
        send 200 select_chat (str_chat ∷ codes "') and (VALID = 1));" ∷ []) minus_one
          (λ rows id. pure (has_rows rows))))

abbrev pub update_rem_time : Text
update_rem_time = codes "UPDATE users_chats set REM_TIME = "

unfoldable pub del_user_all_chats : (user_id timestamp : ℤ) → M ℤ
del_user_all_chats user_id timestamp = return_if_null minus_one do
  str_user_id ← sprintf_int 10 user_id
  str_time ← sprintf_int 10 timestamp
  return_if (leb 180 (length str_user_id + length update_rem_time)) minus_one (
      send 200 update_rem_time
        (str_time ∷ codes " where (ID_USERS = " ∷ str_user_id ∷ codes ");" ∷ []) minus_one
        (λ rows id. pure (pos 0)))

abbrev pub insert_user_chat : Text
insert_user_chat =
    codes "INSERT INTO users_chats(ID_USERS,ID_CHAT,CREATION_TIME, READ_MSG_TIME, REM_TIME) VALUES("

unfoldable pub add_user_chat : (user_id chat_id read_timestamp timestamp : ℤ) → M ℤ
add_user_chat user_id chat_id read_timestamp timestamp = return_if_null minus_one do
  str_user_id ← sprintf_int 10 user_id
  str_chat_id ← sprintf_int 10 chat_id
  str_time ← sprintf_int 10 timestamp
  str_read_time ← sprintf_int 10 read_timestamp
  return_if
      (leb 180
        (length str_user_id + length str_chat_id + length str_time + length insert_user_chat))
      minus_one
      (send 200 insert_user_chat
        (str_user_id
          ∷ codes ","
          ∷ str_chat_id
          ∷ codes ","
          ∷ str_time
          ∷ codes ","
          ∷ str_read_time
          ∷ codes ", 0);"
          ∷ [])
        minus_one (λ rows id. pure (pos 0)))

abbrev pub insert_chat : Text
insert_chat =
    codes
      "INSERT INTO chats(ID_ADMIN,DESCRIPTION,CREATION_TIME, ADMIN_TIME, VALID, READ_TIME) VALUES("

-- The id of the new chat is returned beside the code; it is read only where the code is 0.
unfoldable pub add_chat : (admin_id : ℤ) (description : Text) (timestamp : ℤ) → M (ℤ × ℤ)
add_chat admin_id description timestamp = do
  str_id ← sprintf_int 10 admin_id
  str_time ← sprintf_int 10 timestamp
  return_if_null (minus_one, pos 0)
      (return_if (leb 180 (length str_id + length insert_chat)) (minus_one, pos 0)
        (send 200 insert_chat
          (str_id
            ∷ codes ",'"
            ∷ description
            ∷ codes "',"
            ∷ str_time
            ∷ codes ","
            ∷ str_time
            ∷ codes ", 1, 0);"
            ∷ [])
          (minus_one, pos 0) (λ rows id. pure (pos 0, id))))

abbrev pub update_chat_valid : Text
update_chat_valid = codes "UPDATE chats set VALID = 0 where ID = "

unfoldable pub del_chat : ℤ → M ℤ
del_chat id_chat = do
  str_id ← sprintf_int 10 id_chat
  return_if_null minus_one (
      return_if (leb 180 (length str_id + length update_chat_valid)) minus_one
        (send 200 update_chat_valid (str_id ∷ codes ";" ∷ []) minus_one (λ rows id. pure (pos 0))))

abbrev pub recover_rem_time : Text
recover_rem_time = codes "UPDATE users_chats set REM_TIME = 0, CREATION_TIME = "

unfoldable pub recover_user_chat : (user_id chat_id timestamp : ℤ) → M ℤ
recover_user_chat user_id chat_id timestamp = return_if_null minus_one do
  str_user_id ← sprintf_int 10 user_id
  str_chat_id ← sprintf_int 10 chat_id
  str_time ← sprintf_int 10 timestamp
  return_if (leb 180 (length str_user_id + length str_chat_id + length recover_rem_time)) minus_one
      (send 200 recover_rem_time
        (str_time
          ∷ codes " where ((ID_USERS = "
          ∷ str_user_id
          ∷ codes ") AND (ID_CHAT ="
          ∷ str_chat_id
          ∷ codes "));"
          ∷ [])
        minus_one (λ rows id. pure (pos 0)))

unfoldable pub del_user_chat : (user_id chat_id timestamp : ℤ) → M ℤ
del_user_chat user_id chat_id timestamp = return_if_null minus_one do
  str_user_id ← sprintf_int 10 user_id
  str_chat_id ← sprintf_int 10 chat_id
  str_time ← sprintf_int 10 timestamp
  return_if (leb 180 (length str_user_id + length str_chat_id + length update_rem_time)) minus_one (
      send 200 update_rem_time
        (str_time
          ∷ codes " where (ID_USERS = "
          ∷ str_user_id
          ∷ codes " AND ID_CHAT ="
          ∷ str_chat_id
          ∷ codes ");"
          ∷ [])
        minus_one (λ rows id. pure (pos 0)))

abbrev pub update_admin : Text
update_admin = codes "UPDATE chats SET ID_ADMIN="

unfoldable pub change_admin : (user_id chat_id timestamp : ℤ) → M ℤ
change_admin user_id chat_id timestamp = return_if_null minus_one do
  str_user_id ← sprintf_int 10 user_id
  str_chat_id ← sprintf_int 10 chat_id
  str_time ← sprintf_int 10 timestamp
  return_if (leb 180 (length str_user_id + length str_chat_id + length update_admin)) minus_one (
      send 200 update_admin
        (str_user_id
          ∷ codes ", ADMIN_TIME = "
          ∷ str_time
          ∷ codes " where ID = "
          ∷ str_chat_id
          ∷ codes ";"
          ∷ [])
        minus_one (λ rows id. pure (pos 0)))

abbrev pub select_admin : Text
select_admin = codes "SELECT * FROM chats where(ID_ADMIN="

unfoldable pub is_admin : (user_id chat_id : ℤ) → M ℤ
is_admin user_id chat_id = return_if_null minus_one do
  str_user_id ← sprintf_int 10 user_id
  str_chat_id ← sprintf_int 10 chat_id
  return_if (leb 180 (length str_user_id + length str_chat_id + length select_admin)) minus_one (
      send 200 select_admin (str_user_id ∷ codes " AND ID =" ∷ str_chat_id ∷ codes ");" ∷ [])
        minus_one (λ rows id. pure (has_rows rows)))

abbrev pub select_chat_users : Text
select_chat_users = codes "SELECT * FROM users_chats where ((ID_CHAT="

unfoldable pub still_users_in_chat : ℤ → M ℤ
still_users_in_chat chat_id = return_if_null minus_one do
  str_chat_id ← sprintf_int 10 chat_id
  return_if (leb 190 (length str_chat_id + length select_chat_users)) minus_one (
      send 200 select_chat_users (str_chat_id ∷ codes ") and ( REM_TIME = 0));" ∷ []) minus_one
        (λ rows id. pure (has_rows rows)))

-- An empty result is only reported, and the row is read all the same.
unfoldable pub get_first_users_in_chat : ℤ → M ℤ
unfolding atoi
get_first_users_in_chat chat_id = return_if_null minus_one do
  str_chat_id ← sprintf_int 10 chat_id
  return_if (leb 180 (length str_chat_id + length select_chat_users)) minus_one (
      send 200 select_chat_users (str_chat_id ∷ codes ") and (REM_TIME = 0));" ∷ []) minus_one
        (λ rows id. do r ← fetch_row rows; id_text ← column r 0; pure (atoi id_text)))
