-- ===== src/Server/Outcomes.antt =====
-- What handlers and lists of server/*.c come to.
use psd_ims.Prelude.{
  zero, suc, ◌+◌, ◌≡◌, ◌≢◌, refl, Bool, true, false, Option, none, some, List, [], ◌∷◌, arith, All,
  if◌then◌else◌, leb,
}
use psd_ims.Prelude.Int.{ℤ, pos, negsuc, ltb_ℤ}
use psd_ims.Server.Gives.{
  Gives-crash, Gives-if, Gives-rows, Gives, Gives-pure, Gives-bind, Gives-bind_with, Gives-send,
  Gives-return_if, Gives-return_if_null,
}
use psd_ims.Server.Run.{sprintf_int, each_row, Conn, pure, done, crash}
use psd_ims.Server.Persistence.MessageTable.{
  MessageEntry, MessageList, latest, dates, increment, message_row, get_list_messages,
}
use psd_ims.Server.Persistence.Lists.{get_all_chat_info}
use psd_ims.Server.Persistence.ChatTable.{
  chat_exist, still_users_in_chat, is_admin, get_first_users_in_chat, change_admin,
}
use psd_ims.Server.Login.{
  LoginInfo, SoapStatus, soap_ok, soap_user_error, Env, with_login, check_login,
}
use psd_ims.Server.Handlers.Messaging.{get_chat_info}
use psd_ims.Server.Handlers.Membership.{is_one, settle_chat}

-- An upper bound of a time and of a list of times.
abbrev pub NoLater : ℤ → List ℤ → Type 0
NoLater t ds = All (λ d. ltb_ℤ t d ≡ false) ds

latest_ge : (t : ℤ) (ds : List ℤ) → ltb_ℤ (latest t ds) t ≡ false
unfolding latest
latest_ge t [] = ground arith
latest_ge t (d ∷ ds) = ground (arith, latest_ge (if ltb_ℤ t d then d else t) ds)

get_all_chat_info_ne_one : (chat_id : ℤ) → Gives (λ n. is_one n ≡ false) (get_all_chat_info chat_id)
unfolding get_all_chat_info
get_all_chat_info_ne_one chat_id =
    let P : ℤ → Type 0 = λ n. is_one n ≡ false in
    Gives-bind P (sprintf_int 20 chat_id) _ λ a. Gives-bind P (sprintf_int 20 (pos 0)) _ λ b.
      Gives-return_if_null P _ _ refl (
        Gives-return_if P _ _ _ refl (
          Gives-send P _ _ _ _ _ refl
            λ rows id. Gives-rows P _ _ (Gives-pure P _ refl) (λ r rs. Gives-crash P) rows))

-- After the administrator has left a chat with users in it: if the id of the first of them is not 1,
-- the handler returns SOAP_OK whatever `change_admin` returns but 1, an error included; and if it is
-- 1, SOAP_USER_ERROR without a call of `change_admin`.
pub settle_chat_handover :
    (id_user chat_id t first code : ℤ) (c d e f g : Conn)
    → still_users_in_chat chat_id c ≡ done (pos 1) d
    → is_admin id_user chat_id d ≡ done (pos 1) e
    → get_first_users_in_chat chat_id e ≡ done first f
    → change_admin first chat_id t f ≡ done code g
    → is_one code ≡ false
    → settle_chat id_user chat_id t c
      ≡ (if is_one first then done soap_user_error f else done soap_ok g)
unfolding settle_chat
settle_chat_handover id_user chat_id t first code c d e f g p q r s o =
    ground (arith, p, q, r, s, o)

-- `psdims__get_chat_info` never returns SOAP_OK, whoever asks for whichever chat.
pub get_chat_info_never_ok :
    (env : Env) (chat_null : Bool) (login : Option LoginInfo) (chat_id : ℤ) (c d : Conn)
    → get_chat_info env chat_null login chat_id c ≢ done soap_ok d
unfolding get_chat_info with_login
get_chat_info_never_ok env chat_null login chat_id c d h =
    let P : SoapStatus → Type 0 = λ s. s ≢ soap_ok in
    let ne : soap_user_error ≢ soap_ok = λ e. ground (arith, e) in
    let g : Gives P (get_chat_info env chat_null login chat_id) = Gives-return_if P _ _ _ ne (
      Gives-return_if P _ _ _ ne (
        Gives-bind P (check_login env.garbage login) _ λ id. Gives-return_if P _ _ _ ne (
          Gives-bind P (chat_exist chat_id) _ λ exists. Gives-return_if P _ _ _ ne (
            Gives-bind_with P (λ n. is_one n ≡ false) (get_all_chat_info chat_id) _
              (get_all_chat_info_ne_one chat_id) (λ code q. rw q (Gives-pure P _ ne)))))) in
    (rw h at (g.run c)) refl

-- The list of messages that a run of `get_list_messages` gives.
abbrev Later : (timestamp : ℤ) → ℤ × Option MessageList → Type 0
Later timestamp (code, none) = Unit
Later timestamp (code, some list) =
    (ltb_ℤ timestamp list.last_timestamp ≡ true)
    × All (λ m. ltb_ℤ m.send_date list.last_timestamp ≡ true) list.messages

latest_bounds :
    (t last : ℤ) (ms : List MessageEntry)
    → ltb_ℤ (latest t (dates ms)) last ≡ true
    → All (λ m. ltb_ℤ m.send_date last ≡ true) ms
unfolding latest
latest_bounds t last [] h = tt
latest_bounds t last (m ∷ ms) h = (
  ground (arith, h, latest_ge (if ltb_ℤ t m.send_date then m.send_date else t) (dates ms)),
  latest_bounds (if ltb_ℤ t m.send_date then m.send_date else t) last ms h,
)

increment-later : (n : ℤ) → Gives (λ m. ltb_ℤ n m ≡ true) (increment n)
increment-later (pos n) =
    Gives-if (λ m. ltb_ℤ (pos n) m ≡ true) (leb 2_147_483_647 n) (λ c. crash) (pure (pos (n + 1)))
      (Gives-crash _) (Gives-pure _ _ (ground arith))
increment-later (negsuc zero) = record { run = λ c. ground arith }
increment-later (negsuc (suc n)) = record { run = λ c. ground arith }

-- The list of messages that a run of `get_list_messages` gives: its time is later than the time asked
-- for and than the time of every message in it.
pub get_list_messages_time :
    (chat_id user_id timestamp code : ℤ) (list : MessageList) (c d : Conn)
    → get_list_messages chat_id user_id timestamp c ≡ done (code, some list) d
    → (ltb_ℤ timestamp list.last_timestamp ≡ true)
      × All (λ m. ltb_ℤ m.send_date list.last_timestamp ≡ true) list.messages
unfolding get_list_messages
get_list_messages_time chat_id user_id timestamp code list c d h =
    let P = Later timestamp in
    let g : Gives P (get_list_messages chat_id user_id timestamp) =
      Gives-bind P (sprintf_int 20 chat_id) _ λ a. Gives-bind P (sprintf_int 20 user_id) _ λ b.
        Gives-bind P (sprintf_int 20 timestamp) _ λ t. Gives-return_if_null P _ _ tt (
          Gives-return_if P _ _ _ tt (
            Gives-send P _ _ _ _ _ tt λ rows id. Gives-bind P (each_row message_row rows) _ λ ms.
              Gives-bind_with P (λ m. ltb_ℤ (latest timestamp (dates ms)) m ≡ true)
                (increment (latest timestamp (dates ms))) _
                (increment-later (latest timestamp (dates ms)))
                (λ last q. Gives-pure P _ (
                  ground (arith, q, latest_ge timestamp (dates ms)),
                  latest_bounds timestamp last ms q,
                )))) in
    rw h at (g.run c)
