-- ===== src/Server/Persistence/Lists.antt =====
-- server/persistence.c: the lists of friends, chats and members that a client asks for.
use psd_ims.Prelude.{◌+◌, ◌*◌, Option, none, some, List, [], ◌∷◌, length, leb, Text, codes}
use psd_ims.Prelude.Int.{ℤ, pos}
use psd_ims.Server.Run.{
  Row, M, pure, ◌>>=◌, return_if, return_if_null, minus_one, sprintf_int, strcats, mysql_query,
  send, column, refused, stored, atoi, each_row, crash,
}
use psd_ims.Server.Persistence.MessageTable.{latest}

-- `psdims__user_info`
pub record UserInfo : Type 0 where
  pub name : Text
  pub information : Text

abbrev pub select_friend_list : Text
select_friend_list =
    codes
      "select DISTINCT users.NAME, users.INFORMATION from users INNER JOIN friends on ( (friends.ID1 = users.ID ) OR (friends.ID2 = users.ID )) where ( ((friends.ID1 = "

abbrev pub user_row : Row → M UserInfo
user_row r = do
  name ← column r 0
  information ← column r 1
  pure (record { name = name; information = information })

-- A list is `none` where the function leaves it alone.
unfoldable pub get_list_friends : (user_id timestamp : ℤ) → M (ℤ × Option (List UserInfo))
unfolding each_row
get_list_friends user_id timestamp = do
  str_id ← sprintf_int 20 user_id
  str_time ← sprintf_int 20 timestamp
  return_if (leb 450 (length str_id * 2 + length select_friend_list)) (minus_one, none)
      (send 500 select_friend_list
        (str_id
          ∷ codes ") or (friends.ID2 = "
          ∷ str_id
          ∷ codes ")) and (users.ID != "
          ∷ str_id
          ∷ codes ") and (friends.CREATION_TIME >= "
          ∷ str_time
          ∷ codes ") and (users.VALID = 1));"
          ∷ [])
        (minus_one, none) (λ rows id. do users ← each_row user_row rows; pure (pos 0, some users)))

abbrev pub select_members : Text
select_members =
    codes
      "select NAME from users INNER JOIN users_chats on (users_chats.ID_USERS = users.ID) where ((users_chats.ID_CHAT = "

abbrev pub name_row : Row → M Text
name_row r = column r 0

-- The length is tested when the query is already there.
unfoldable pub get_member_list_chats : (chat_id timestamp : ℤ) → M (ℤ × Option (List Text))
unfolding each_row strcats
get_member_list_chats chat_id timestamp = do
  str_id ← sprintf_int 20 chat_id
  str_time ← sprintf_int 20 timestamp
  return_if_null (minus_one, none)
      do
        consulta ← strcats 500 select_members (
            str_id
            ∷ codes ") and (users_chats.CREATION_TIME >= "
            ∷ str_time
            ∷ codes ") and (users_chats.REM_TIME = 0));"
            ∷ [])
        return_if (leb 450 (length str_id + length str_time + length consulta)) (minus_one, none)
            do
              reply ← mysql_query consulta
              elim reply [
                | refused ↦ pure (minus_one, none)
                | stored rows id ↦ do names ← each_row name_row rows; pure (pos 0, some names)
              ]

-- One chat of `psdims__chat_list`; `members` is `none` where it is left uninitialised.
pub record ChatEntry : Type 0 where
  pub chat_id : ℤ
  pub description : Text
  pub admin : Text
  pub read_timestamp : ℤ
  pub creation_time : ℤ
  pub all_read_timestamp : ℤ
  pub members : Option (List Text)

pub record ChatList : Type 0 where
  pub last_timestamp : ℤ
  pub chats : List ChatEntry

abbrev pub select_chats : Text
select_chats =
    codes
      "select chats.ID, chats.DESCRIPTION, users.NAME, users_chats.READ_MSG_TIME, chats.CREATION_TIME, chats.READ_TIME from chats INNER JOIN users_chats on (users_chats.ID_CHAT = chats.ID) INNER JOIN users on (users.ID = chats.ID_ADMIN ) where ((users_chats.ID_USERS = "

-- Each row sends the query for the members; the code that `get_member_list_chats` returns is dropped.
abbrev pub chat_row : ℤ → Row → M ChatEntry
chat_row timestamp r = do
  description ← column r 1
  admin ← column r 2
  id_text ← column r 0
  read ← column r 3
  creation ← column r 4
  all_read ← column r 5
  (code, members) ← get_member_list_chats (atoi id_text) timestamp
  pure (record {
    chat_id = atoi id_text;
    description = description;
    admin = admin;
    read_timestamp = atoi read;
    creation_time = atoi creation;
    all_read_timestamp = atoi all_read;
    members = members;
  })

abbrev pub creation_times : List ChatEntry → List ℤ
creation_times [] = []
creation_times (c ∷ cs) = c.creation_time ∷ creation_times cs

unfoldable pub get_list_chats : (user_id timestamp : ℤ) → M (ℤ × Option ChatList)
unfolding each_row get_member_list_chats latest
get_list_chats user_id timestamp = do
  str_id ← sprintf_int 20 user_id
  str_time ← sprintf_int 20 timestamp
  return_if_null (minus_one, none)
      (return_if (leb 450 (length str_id + length select_chats)) (minus_one, none)
        (send 500 select_chats
          (str_id
            ∷ codes ") and (chats.CREATION_TIME >= "
            ∷ str_time
            ∷ codes ") and (users_chats.REM_TIME = 0));"
            ∷ [])
          (minus_one, none)
          (λ rows id. do
            chats ← each_row (chat_row timestamp) rows
            pure (
              pos 0,
              some (record {
                last_timestamp = latest (pos 0) (creation_times chats);
                chats = chats;
              }),
            ))))

abbrev pub select_chat_info : Text
select_chat_info =
    codes
      "SELECT users.NAME, chats.DESCRIPTION, chats.READ_TIME FROM chats INNER JOIN users on (users.ID = chats.ID_ADMIN) where ((chats.ID = "

-- `row` is read without having been fetched.
unfoldable pub get_all_chat_info : ℤ → M ℤ
get_all_chat_info chat_id = do
  str_id ← sprintf_int 20 chat_id
  str_time ← sprintf_int 20 (pos 0)
  return_if_null minus_one (
      return_if (leb 190 (length str_id + length select_chat_info)) minus_one (
        send 200 select_chat_info
          (str_id ∷ codes " ) and (CREATION_TIME >= " ∷ str_time ∷ codes "));" ∷ []) minus_one
          (λ rows id. elim rows [ [] ↦ pure minus_one | r ∷ rs ↦ λ c. crash ])))
