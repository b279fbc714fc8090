-- ===== src/Server/Handlers/Membership.antt =====
-- server/psd_ims_server.c: making a chat, and who is in it.
use psd_ims.Prelude.{◌+◌, length, leb, false, Bool, not, Option, none, some, Text, if◌then◌else◌}
use psd_ims.Prelude.Int.{ℤ, pos, same_int}
use psd_ims.Server.Run.{
  crash, return_if_null, sprintf_int, M, pure, ◌>>=◌, ◌>>◌, return_if, minus_one,
}
use psd_ims.Server.Persistence.Users.{get_user_id}
use psd_ims.Server.Persistence.Friendship.{exist_friendly}
use psd_ims.Server.Persistence.ChatTable.{
  insert_chat, add_chat, add_user_chat, del_chat, chat_exist, is_admin, exist_user_in_chat,
  exist_user_entry_in_chat, recover_user_chat, del_user_chat, still_users_in_chat,
  get_first_users_in_chat, change_admin,
}
use psd_ims.Server.Login.{LoginInfo, SoapStatus, soap_ok, soap_user_error, Env, with_login}
use psd_ims.Server.Handlers.Account.{is_true}

-- `psdims__new_chat`
pub record NewChat : Type 0 where
  pub description : Option Text
  pub member : Option Text

abbrev pub is_one : ℤ → Bool
is_one n = same_int n (pos 1)

-- The name of the member: NULL is a crash when its length is taken, behind the test of the connection.
abbrev pub member_id : Option Text → M ℤ
member_id none = return_if_null minus_one (λ c. crash)
member_id (some member) = get_user_id member

-- `add_chat`, where a description that is NULL is a crash when it is appended, behind the other tests.
abbrev pub describe_chat : (admin_id : ℤ) → Option Text → (timestamp : ℤ) → M (ℤ × ℤ)
describe_chat admin_id (some description) timestamp = add_chat admin_id description timestamp
describe_chat admin_id none timestamp = do
  str_id ← sprintf_int 10 admin_id
  str_time ← sprintf_int 10 timestamp
  return_if_null (minus_one, pos 0)
      (return_if (leb 180 (length str_id + length insert_chat)) (minus_one, pos 0) (λ c. crash))

-- The test behind the lookup of the member is on `id_user`, which the login has settled.
unfoldable pub create_chat :
    Env → (chat_id_null : Bool) → Option LoginInfo → Option NewChat → M (SoapStatus × Option ℤ)
unfolding with_login
create_chat env chat_id_null login none = pure (soap_user_error, none)
create_chat env chat_id_null login (some new_chat) =
    with_login env chat_id_null login (soap_user_error, none)
      λ id_user. do
        id_member ← member_id new_chat.member
        return_if (same_int id_user minus_one) (soap_user_error, none)
            do
              (code, chat_id) ← describe_chat id_user new_chat.description env.now
              return_if (is_true code) (soap_user_error, none)
                  do
                    code2 ← add_user_chat id_user chat_id env.now env.now
                    if is_true code2
                        then (do del_chat chat_id; pure (soap_user_error, none))
                        else (do
                          code3 ← add_user_chat id_member chat_id env.now env.now
                          return_if (is_true code3) (soap_user_error, none)
                              (pure (soap_ok, some chat_id)))

-- A member who has left is brought back, any other is entered.
abbrev pub enter_chat : Env → (id_user chat_id : ℤ) → M SoapStatus
enter_chat env id_user chat_id = do
  entry ← exist_user_entry_in_chat id_user chat_id
  if is_one entry
      then (do
        code ← recover_user_chat id_user chat_id env.now
        return_if (is_true code) soap_user_error (pure soap_ok))
      else (do
        code ← add_user_chat id_user chat_id env.now env.now
        return_if (is_true code) soap_user_error (pure soap_ok))

unfoldable pub add_member :
    Env → Option LoginInfo → (name : Option Text) → (chat_id : ℤ) → M SoapStatus
unfolding with_login
add_member env login none chat_id = pure soap_user_error
add_member env login (some name) chat_id = with_login env false login soap_user_error λ id_login. do
  exists ← chat_exist chat_id
  return_if (not (is_one exists)) soap_user_error do
    admin ← is_admin id_login chat_id
    return_if (not (is_true admin)) soap_user_error do
      id_user ← get_user_id name
      return_if (same_int id_user minus_one) soap_user_error (
          return_if (same_int id_user id_login) soap_user_error do
            friendly ← exist_friendly id_user id_login
            return_if (not (is_one friendly)) soap_user_error do
              member ← exist_user_in_chat id_user chat_id
              return_if (is_one member) soap_user_error (enter_chat env id_user chat_id))

-- `!f(…) == 1` is true where `f` returns 0.
unfoldable pub remove_member :
    Env → Option LoginInfo → (name : Option Text) → (chat_id : ℤ) → M SoapStatus
unfolding with_login
remove_member env login none chat_id = pure soap_user_error
remove_member env login (some name) chat_id = with_login env false login soap_user_error λ id_login.
    do
      exists ← chat_exist chat_id
      return_if (not (is_one exists)) soap_user_error do
        admin ← is_admin id_login chat_id
        return_if (not (is_true admin)) soap_user_error do
          id_user ← get_user_id name
          return_if (same_int id_user minus_one) soap_user_error (
              return_if (same_int id_user id_login) soap_user_error do
                member ← exist_user_in_chat id_user chat_id
                return_if (not (is_true member)) soap_user_error do
                  code ← del_user_chat id_user chat_id env.now
                  return_if (is_true code) soap_user_error (pure soap_ok))

-- What follows when the user is out: another admin if needed, or the end of an empty chat.
unfoldable pub settle_chat : (id_user chat_id timestamp : ℤ) → M SoapStatus
settle_chat id_user chat_id timestamp = do
  still ← still_users_in_chat chat_id
  if is_one still
      then (do
        admin ← is_admin id_user chat_id
        if is_one admin
            then (do
              first_user ← get_first_users_in_chat chat_id
              return_if (is_one first_user) soap_user_error do
                code ← change_admin first_user chat_id timestamp
                return_if (is_one code) soap_user_error (pure soap_ok))
            else pure soap_ok)
      else (do code ← del_chat chat_id; return_if (is_true code) soap_user_error (pure soap_ok))

unfoldable pub quit_from_chat : Env → Option LoginInfo → (chat_id : ℤ) → M SoapStatus
unfolding with_login settle_chat
quit_from_chat env login chat_id = with_login env false login soap_user_error λ id_user. do
  exists ← chat_exist chat_id
  return_if (not (is_one exists)) soap_user_error do
    member ← exist_user_in_chat id_user chat_id
    return_if (not (is_one member)) soap_user_error do
      code ← del_user_chat id_user chat_id env.now
      return_if (is_true code) soap_user_error (settle_chat id_user chat_id env.now)
