-- ===== src/Server/Login.antt =====
-- server/psd_ims_server.c: `check_login`, and how each handler begins.
use psd_ims.Prelude.{Bool, not, Option, none, some, Text, same_text, if◌then◌else◌}
use psd_ims.Prelude.Int.{ℤ, pos, same_int, ltb_ℤ}
use psd_ims.Server.Run.{M, pure, ◌>>=◌, return_if, minus_one}
use psd_ims.Server.Persistence.Users.{get_user_id, get_user_pass}

-- `psdims__login_info`, a field is `none` for NULL.
pub record LoginInfo : Type 0 where
  pub name : Option Text
  pub password : Option Text

-- The array `pass` is not initialised: `garbage` is the text that it happens to hold. The code that
-- `get_user_pass` returns is dropped.
unfoldable pub check_named : (garbage name password : Text) → M ℤ
check_named garbage name password = do
  user_id ← get_user_id name
  return_if (same_int user_id minus_one) minus_one do
    (code, pass) ← get_user_pass name garbage 50
    if same_text password pass then pure user_id else pure minus_one

-- `login` is `none` for NULL.
unfoldable pub check_login : Text → Option LoginInfo → M ℤ
unfolding check_named
check_login garbage none = pure minus_one
check_login garbage (some login) = elim login.name [
  | none ↦ pure minus_one
  | some name ↦ elim login.password [
    | none ↦ pure minus_one
    | some password ↦ check_named garbage name password
  ]
]

-- What a handler returns to gSOAP: SOAP_OK, SOAP_USER_ERROR, or -1 in one branch of
-- `psdims__get_friend_info`.
pub data SoapStatus : Type 0 where
  soap_ok soap_user_error soap_minus_one : SoapStatus

-- What a handler meets: whether `clone_persistence` makes a connection, what the array for the password
-- holds, and the time that `time(NULL)` gives.
pub record Env : Type 0 where
  pub cloned : Bool
  pub garbage : Text
  pub now : ℤ

-- The handlers begin alike: the connection, the arguments that may not be NULL, and the login. What
-- follows gets the id of the user.
unfoldable pub with_login {ℓ} :
    {A : Type ℓ} → Env → (arguments_null : Bool) → Option LoginInfo → A → (ℤ → M A) → M A
unfolding check_login
with_login env arguments_null login error body = return_if (not env.cloned) error (
    return_if arguments_null error do
      id_user ← check_login env.garbage login
      return_if (ltb_ℤ id_user (pos 0)) error (body id_user))
