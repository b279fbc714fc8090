-- ===== src/Server/Overruns.antt =====
-- Inputs for which server/persistence.c writes behind the end of an array.
use psd_ims.Prelude.{codes, ℕ, ◌+◌, ◌≤◌, ◌≡◌, false, some, [], ◌∷◌, arith, length, Text, leb}
use psd_ims.Prelude.Int.{ℤ, pos}
use psd_ims.Server.Run.{Conn, done, crash, show_int, minus_one}
use psd_ims.Server.Digits.{length-show_int-ge}
use psd_ims.Server.Strings.{send_overruns}
use psd_ims.Server.Persistence.Users.{id_of_rows, select_id, get_user_id}
use psd_ims.Server.Persistence.Friendship.{send_request, accept_friend_request}
use psd_ims.Server.Persistence.ChatTable.{
  add_user_chat, add_chat, recover_user_chat, del_user_chat, del_user_all_chats, change_admin,
}
use psd_ims.Server.Login.{check_login, check_named}

get_user_id_overrun :
    (name : Text) (c : Conn)
    → c.mysql_null ≡ false
    → (443 ≤ length name → length name ≤ 460 → get_user_id name c ≡ crash)
      × (461 ≤ length name → get_user_id name c ≡ done minus_one c)
unfolding get_user_id
get_user_id_overrun name c h = (
  λ lo hi. ground (
    arith,
    send_overruns 500 select_id (name ∷ codes "') and (VALID = 1));" ∷ []) minus_one id_of_rows c,
  ),
  λ lo. ground arith,
)

-- On a connection: a login with a name of 443 to 460 bytes writes behind the end of the array that takes
-- the first query, whatever the password.
pub check_login_overrun :
    (garbage name password : Text) (c : Conn)
    → c.mysql_null ≡ false
    → 443 ≤ length name
    → length name ≤ 460
    → check_login garbage (some (record { name = some name; password = some password })) c ≡ crash
unfolding check_login check_named
check_login_overrun garbage name password c h lo hi =
    ground (arith, (get_user_id_overrun name c h).0 lo hi)

-- On a connection: a login with a name of more than 460 bytes is refused with -1, and no query is sent.
pub check_login_too_long :
    (garbage name password : Text) (c : Conn)
    → c.mysql_null ≡ false
    → 461 ≤ length name
    → check_login garbage (some (record { name = some name; password = some password })) c
      ≡ done minus_one c
unfolding check_login check_named
check_login_too_long garbage name password c h lo =
    ground (arith, (get_user_id_overrun name c h).1 lo)

-- On a connection: a time of ten digits or more does not fit the array of ten bytes that takes its text,
-- and each of the eight functions that store such a time writes behind the end of it.
pub timestamp_overrun :
    (a b read : ℤ) (description : Text) (t : ℕ) (c : Conn)
    → c.mysql_null ≡ false
    → 1_000_000_000 ≤ t
    → (send_request a b (pos t) c ≡ crash)
      × (accept_friend_request a b (pos t) c ≡ crash)
      × (add_user_chat a b read (pos t) c ≡ crash)
      × (add_chat a description (pos t) c ≡ crash)
      × (recover_user_chat a b (pos t) c ≡ crash)
      × (del_user_chat a b (pos t) c ≡ crash)
      × (del_user_all_chats a (pos t) c ≡ crash)
      × (change_admin a b (pos t) c ≡ crash)
unfolding send_request accept_friend_request add_user_chat add_chat recover_user_chat del_user_chat
    del_user_all_chats change_admin
timestamp_overrun a b read description t c h long =
    let d = length-show_int-ge t long in
    let e : leb (length (show_int (pos t)) + 1) 10 ≡ false = ground arith in
    (
      ground (arith, e),
      ground (arith, e),
      ground (arith, e),
      ground (arith, e),
      ground (arith, e),
      ground (arith, e),
      ground (arith, e),
      ground (arith, e),
    )
