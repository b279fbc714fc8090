-- ===== src/Server/Handlers/Friendship.antt =====
-- server/psd_ims_server.c: friends and friend requests.
use psd_ims.Prelude.{Bool, Option, none, some, List, Text}
use psd_ims.Prelude.Int.{ℤ, pos, same_int}
use psd_ims.Server.Run.{M, pure, ◌>>=◌, return_if}
use psd_ims.Server.Persistence.Users.{get_user_id}
use psd_ims.Server.Persistence.Friendship.{
  exist_friendly, exist_request, send_request, accept_friend_request, decline_friend_request,
}
use psd_ims.Server.Persistence.Lists.{UserInfo, get_list_friends}
use psd_ims.Server.Login.{LoginInfo, SoapStatus, soap_ok, soap_user_error, Env, with_login}
use psd_ims.Server.Handlers.Account.{is_true}

unfoldable pub get_friends :
    Env
    → (friends_null : Bool) → Option LoginInfo
    → (timestamp : ℤ) → M (SoapStatus × Option (List UserInfo))
unfolding with_login
get_friends env friends_null login timestamp =
    with_login env friends_null login (soap_user_error, none)
      λ id. do
        (code, friends) ← get_list_friends id timestamp
        return_if (is_true code) (soap_user_error, none) (pure (soap_ok, friends))

-- In the next three handlers the time of the request is returned through `timestamp`, which may not be
-- NULL. An unknown `request_name` has the id -1, and is not refused.
unfoldable pub send_friend_request :
    Env → (timestamp_null : Bool) → Option LoginInfo → (request_name : Option Text) → M SoapStatus
unfolding with_login
send_friend_request env timestamp_null login none = pure soap_user_error
send_friend_request env timestamp_null login (some request_name) =
    with_login env timestamp_null login soap_user_error λ id_user. do
      id_request_name ← get_user_id request_name
      return_if (same_int id_request_name id_user) soap_user_error do
        friendly ← exist_friendly id_user id_request_name
        return_if (is_true friendly) soap_user_error do
          requested ← exist_request id_user id_request_name
          return_if (is_true requested) soap_user_error do
            code ← send_request id_user id_request_name env.now
            return_if (is_true code) soap_user_error (pure soap_ok)

unfoldable pub accept_request :
    Env → (timestamp_null : Bool) → Option LoginInfo → (request_name : Option Text) → M SoapStatus
unfolding with_login
accept_request env timestamp_null login none = pure soap_user_error
accept_request env timestamp_null login (some request_name) =
    with_login env timestamp_null login soap_user_error λ id_user. do
      id_request_name ← get_user_id request_name
      requested ← exist_request id_request_name id_user
      return_if (same_int requested (pos 0)) soap_user_error do
        code ← accept_friend_request id_request_name id_user env.now
        return_if (is_true code) soap_user_error (pure soap_ok)

unfoldable pub decline_request :
    Env → (timestamp_null : Bool) → Option LoginInfo → (request_name : Option Text) → M SoapStatus
unfolding with_login
decline_request env timestamp_null login none = pure soap_user_error
decline_request env timestamp_null login (some request_name) =
    with_login env timestamp_null login soap_user_error λ id_user. do
      id_request_name ← get_user_id request_name
      requested ← exist_request id_request_name id_user
      return_if (same_int requested (pos 0)) soap_user_error do
        code ← decline_friend_request id_request_name id_user
        return_if (is_true code) soap_user_error (pure soap_ok)
