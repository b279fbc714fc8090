-- ===== src/Server/Handlers/Account.antt =====
-- server/psd_ims_server.c: registering, unregistering, and the user's own data.
use psd_ims.Prelude.{Bool, not, Option, none, some, [], Text, is_some}
use psd_ims.Prelude.Int.{negsuc, ℤ, pos, same_int}
use psd_ims.Server.Run.{M, pure, ◌>>=◌, return_if}
use psd_ims.Server.Persistence.Users.{
  user_entry_exist, add_user, del_user, get_user_info, get_user_id,
}
use psd_ims.Server.Persistence.ChatTable.{del_user_all_chats}
use psd_ims.Server.Persistence.Lists.{UserInfo}
use psd_ims.Server.Login.{
  LoginInfo, SoapStatus, soap_ok, soap_user_error, soap_minus_one, Env, with_login,
}

-- An `int` as a condition, and `!= 0`.
abbrev pub is_true : ℤ → Bool
is_true n = not (same_int n (pos 0))

abbrev pub is_null {ℓ} : {A : Type ℓ} → Option A → Bool
is_null o = not (is_some o)

-- `psdims__register_info`, a field is `none` for NULL.
pub record RegisterInfo : Type 0 where
  pub name : Option Text
  pub password : Option Text
  pub information : Option Text

unfoldable pub register_named : (name password information : Text) → M SoapStatus
register_named name password information = do
  taken ← user_entry_exist name
  return_if (is_true taken) soap_user_error do
    code ← add_user name password information
    return_if (is_true code) soap_user_error (pure soap_ok)

unfoldable pub user_register : Env → Option RegisterInfo → M SoapStatus
unfolding register_named
user_register env none = pure soap_user_error
user_register env (some info) = return_if (not env.cloned) soap_user_error (elim info.name [
  | none ↦ pure soap_user_error
  | some name ↦ elim info.password [
    | none ↦ pure soap_user_error
    | some password ↦ elim info.information [
      | none ↦ pure soap_user_error
      | some information ↦ register_named name password information
    ]
  ]
])

-- The name of a login.
abbrev pub login_name : Option LoginInfo → Text
login_name none = []
login_name (some login) = elim login.name [ none ↦ [] | some name ↦ name ]

-- A NULL in the login is refused before `check_login`, and by it, with the same answer.
unfoldable pub user_unregister : Env → Option LoginInfo → M SoapStatus
unfolding with_login
user_unregister env login = with_login env (is_null login) login soap_user_error λ user_id. do
  code ← del_user (login_name login)
  return_if (is_true code) soap_user_error do
    code2 ← del_user_all_chats user_id env.now
    return_if (is_true code2) soap_user_error (pure soap_ok)

-- `information` is an array of 200 bytes, fresh from `soap_malloc`: `fresh` is the text in it.
abbrev pub answer_user : (fresh name : Text) → ℤ → M (SoapStatus × Option UserInfo)
answer_user fresh name id = do
  (code, information) ← get_user_info id fresh 200
  pure (soap_ok, some (record { name = name; information = information }))

unfoldable pub get_user :
    Env → (user_null : Bool) → (fresh : Text) → Option LoginInfo → M (SoapStatus × Option UserInfo)
unfolding with_login
get_user env user_null fresh login =
    with_login env user_null login (soap_user_error, none)
      λ user_id. answer_user fresh (login_name login) user_id

-- An unknown name is answered by -1.
unfoldable pub get_friend_info :
    Env
    → (info_null : Bool) → (fresh : Text) → Option LoginInfo
    → (name : Option Text) → M (SoapStatus × Option UserInfo)
unfolding with_login
get_friend_info env info_null fresh login none = pure (soap_user_error, none)
get_friend_info env info_null fresh login (some name) =
    with_login env info_null login (soap_user_error, none)
      λ id. do
        friend_id ← get_user_id name
        return_if (same_int friend_id (negsuc 0)) (soap_minus_one, none)
            (answer_user fresh name friend_id)
