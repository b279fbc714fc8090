-- ===== src/Server/Fits.antt =====
-- Inputs for which the functions of server/persistence.c send their query as it is meant.
use psd_ims.Prelude.{ℕ, ◌+◌, ◌≤◌, ◌<◌, ◌≡◌, false, List, [], ◌∷◌, ◌++◌, arith, length, Text, codes}
use psd_ims.Prelude.Int.{ℤ, pos}
use psd_ims.Server.Run.{send, Run, Conn, pure, show_int, minus_one}
use psd_ims.Server.Digits.{length-show_int-le}
use psd_ims.Server.Strings.{total, send_fits, joined, on_reply, sent_text}
use psd_ims.Server.Persistence.Users.{get_user_id, select_id, id_of_rows}
use psd_ims.Server.Persistence.Friendship.{send_request, insert_request}
use psd_ims.Server.Persistence.ChatTable.{
  add_user_chat, insert_user_chat, del_user_chat, update_rem_time, change_admin, update_admin,
}

-- One query goes out; the code says whether MySQL took it.
abbrev pub sends_one : Conn → Text → Run ℤ
sends_one c q =
    on_reply (c.answer (c.sent ++ q ∷ [])) minus_one (λ rows id. pure (pos 0)) (sent_text c q)

-- On a connection: for a name of at most 442 bytes `get_user_id` sends one query with that name in it.
pub get_user_id_fits :
    (name : Text) (c : Conn)
    → c.mysql_null ≡ false
    → length name ≤ 442
    → let q = select_id ++ (name ++ codes "') and (VALID = 1));") in
      get_user_id name c
      ≡ on_reply (c.answer (c.sent ++ q ∷ [])) minus_one id_of_rows (sent_text c q)
unfolding get_user_id
get_user_id_fits name c h short = ground (
  arith,
  send_fits 500 select_id (name ∷ codes "') and (VALID = 1));" ∷ []) minus_one id_of_rows c,
)

sends :
    (size : ℕ) (start : Text) (ps : List Text) (c : Conn)
    → length start + total ps < size
    → send size start ps minus_one (λ rows id. pure (pos 0)) c ≡ sends_one c (start ++ joined ps)
sends size start ps c h = send_fits size start ps minus_one (λ rows id. pure (pos 0)) c h

-- What the four functions put behind the start of their queries.
abbrev pub request_values : (user chat time : Text) → List Text
request_values user chat time = user ∷ codes "," ∷ chat ∷ codes "," ∷ time ∷ codes ");" ∷ []

abbrev pub member_values : (user chat time read : Text) → List Text
member_values user chat time read =
    user ∷ codes "," ∷ chat ∷ codes "," ∷ time ∷ codes "," ∷ read ∷ codes ", 0);" ∷ []

abbrev pub removal_values : (user chat time : Text) → List Text
removal_values user chat time =
    time ∷ codes " where (ID_USERS = " ∷ user ∷ codes " AND ID_CHAT =" ∷ chat ∷ codes ");" ∷ []

abbrev pub admin_values : (user chat time : Text) → List Text
admin_values user chat time =
    user ∷ codes ", ADMIN_TIME = " ∷ time ∷ codes " where ID = " ∷ chat ∷ codes ";" ∷ []

-- On a connection: with ids and times below 10^9, `send_request`, `add_user_chat`, `del_user_chat` and
-- `change_admin` send one query each, with the values in the order of the columns, and return 0, or -1
-- if MySQL refuses it.
pub writes_fit :
    (a b t r : ℕ) (c : Conn)
    → c.mysql_null ≡ false
    → a < 1_000_000_000
    → b < 1_000_000_000
    → t < 1_000_000_000
    → r < 1_000_000_000
    → let user = show_int (pos a) in
      let chat = show_int (pos b) in
      let time = show_int (pos t) in
      let read = show_int (pos r) in
      (send_request (pos a) (pos b) (pos t) c
        ≡ sends_one c (insert_request ++ joined (request_values user chat time)))
      × (add_user_chat (pos a) (pos b) (pos r) (pos t) c
          ≡ sends_one c (insert_user_chat ++ joined (member_values user chat time read)))
      × (del_user_chat (pos a) (pos b) (pos t) c
          ≡ sends_one c (update_rem_time ++ joined (removal_values user chat time)))
      × (change_admin (pos a) (pos b) (pos t) c
          ≡ sends_one c (update_admin ++ joined (admin_values user chat time)))
unfolding send_request add_user_chat del_user_chat change_admin
writes_fit a b t r c h ha hb ht hr =
    let la = length-show_int-le a ha in
    let lb = length-show_int-le b hb in
    let lt = length-show_int-le t ht in
    let lr = length-show_int-le r hr in
    let user = show_int (pos a) in
    let chat = show_int (pos b) in
    let time = show_int (pos t) in
    let read = show_int (pos r) in
    (
      ground (arith, sends 200 insert_request (request_values user chat time) c),
      ground (arith, sends 200 insert_user_chat (member_values user chat time read) c),
      ground (arith, sends 200 update_rem_time (removal_values user chat time) c),
      ground (arith, sends 200 update_admin (admin_values user chat time) c),
    )
