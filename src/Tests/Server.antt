-- ===== src/Tests/Server.antt =====
-- Runs of the server's functions against small stand-ins for the MySQL server.
use psd_ims.Prelude.{
  ℕ, zero, suc, ◌<◌, ◌≡◌, ◌≢◌, refl, true, false, Option, none, some, List, [], ◌∷◌, ◌++◌, arith,
  codes, Text, same_text, if◌then◌else◌, length, leb, All,
}
use psd_ims.Prelude.Int.{ℤ, pos, negsuc, ltb_ℤ}
use psd_ims.Server.Run.{
  Run, Conn, Reply, refused, stored, Row, done, crash, minus_one, show_int, show_digits, strcats,
  send, each_row, atoi, scan_digits,
}
use psd_ims.Server.Strings.{joined}
use psd_ims.Server.Digits.{IsInt32}
use psd_ims.Server.Persistence.Users.{get_user_id, get_user_pass}
use psd_ims.Server.Persistence.Friendship.{send_request, accept_friend_request, insert_request}
use psd_ims.Server.Persistence.ChatTable.{
  add_user_chat, add_chat, recover_user_chat, del_user_chat, del_user_all_chats, change_admin,
  still_users_in_chat, del_chat, is_admin, get_first_users_in_chat, insert_user_chat,
  update_rem_time, update_admin,
}
use psd_ims.Server.Persistence.MessageTable.{OutMessage, MessageList, get_list_messages, latest}
use psd_ims.Server.Login.{LoginInfo, check_login, check_named, Env, soap_ok}
use psd_ims.Server.Handlers.Account.{user_unregister}
use psd_ims.Server.Handlers.Friendship.{send_friend_request, accept_request, decline_request}
use psd_ims.Server.Handlers.Membership.{
  NewChat, create_chat, add_member, remove_member, quit_from_chat,
}
use psd_ims.Server.Handlers.Messaging.{
  wait_for_time, send_message, get_pending_notifications, get_chat_info,
}
use psd_ims.Server.Reads.{RunReads}
use psd_ims.Server.Safety.{Accepted, check_login_sound, refused_login_no_write}
use psd_ims.Server.Overruns.{check_login_overrun, timestamp_overrun}
use psd_ims.Server.Fits.{
  sends_one, writes_fit, request_values, member_values, removal_values, admin_values,
}
use psd_ims.Server.Waiting.{Ends, wait_for_time-Ends, wait_for_time_refused}
use psd_ims.Server.Outcomes.{get_chat_info_never_ok, get_list_messages_time}

-- A connection on which nothing has been sent.
abbrev pub connection : (List Text → Reply) → Conn
connection answer = record { mysql_null = false; sent = []; answer = answer }

-- Every query is answered with one row.
abbrev pub always : Row → Conn
always row = connection (λ qs. stored (row ∷ []) (pos 0))

abbrev nothing_found : Conn
nothing_found = connection (λ qs. stored [] (pos 0))

abbrev all_refused : Conn
all_refused = connection (λ qs. refused)

-- Only the first query is refused.
abbrev first_refused : Conn
first_refused = connection (λ qs. if leb (length qs) 1 then refused else stored [] (pos 0))

abbrev pub after {ℓ} : {A : Type ℓ} → Run A → Conn → Conn
after (done a c) d = c
after crash d = d

abbrev pub login_of : Text → Text → Option LoginInfo
login_of name password = some (record { name = some name; password = some password })

abbrev pub env : Env
env = record { cloned = true; garbage = []; now = pos 1000 }

-- The stand-in gives "7" for the id and for the password alike.
abbrev pub sevens : Conn
sevens = always (some (codes "7") ∷ [])

abbrev pub good_login : Option LoginInfo
good_login = login_of (codes "ann") (codes "7")

abbrev bad_login : Option LoginInfo
bad_login = login_of (codes "ann") (codes "8")

login_accepted :
    check_login [] good_login sevens
    ≡ done (pos 7) (after (check_login [] good_login sevens) sevens)
unfolding check_login check_named get_user_id get_user_pass send strcats atoi scan_digits same_text
login_accepted = refl

login_refused :
    check_login [] bad_login sevens
    ≡ done (negsuc 0) (after (check_login [] bad_login sevens) sevens)
unfolding check_login check_named get_user_id get_user_pass send strcats atoi scan_digits same_text
login_refused = refl

check_login_sound_example :
    Accepted [] good_login sevens (after (check_login [] good_login sevens) sevens) 7
check_login_sound_example =
    check_login_sound [] good_login sevens (after (check_login [] good_login sevens) sevens) 7
      login_accepted

abbrev ben : Option Text
ben = some (codes "ben")

abbrev new_chat : Option NewChat
new_chat = some (record { description = some (codes "talk"); member = some (codes "ben") })

abbrev hello : Option OutMessage
hello = some (record { text = some (codes "hello"); file_name = none })

abbrev clock : ℕ → ℤ
clock i = pos 1000

refused_login_no_write_example :
    RunReads sevens (user_unregister env bad_login sevens)
    × RunReads sevens (send_friend_request env false bad_login ben sevens)
    × RunReads sevens (accept_request env false bad_login ben sevens)
    × RunReads sevens (decline_request env false bad_login ben sevens)
    × RunReads sevens (create_chat env false bad_login new_chat sevens)
    × RunReads sevens (add_member env bad_login ben (pos 5) sevens)
    × RunReads sevens (remove_member env bad_login ben (pos 5) sevens)
    × RunReads sevens (quit_from_chat env bad_login (pos 5) sevens)
    × RunReads sevens (send_message 3 clock env false bad_login (pos 5) hello sevens)
    × RunReads sevens (get_pending_notifications env false bad_login (pos 9) [] sevens)
refused_login_no_write_example =
    refused_login_no_write env false bad_login ben new_chat hello (pos 5) (pos 9) [] 3 clock sevens
      (after (check_login [] bad_login sevens) sevens) 0 login_refused

-- A name of `n` letters.
abbrev letters : ℕ → Text
letters zero = []
letters (suc n) = b'a' ∷ letters n

length-letters : (n : ℕ) → length (letters n) ≡ n
length-letters zero = refl
length-letters (suc n) = omega (arith, length-letters n)

check_login_overrun_example : check_login [] (login_of (letters 450) (codes "x")) sevens ≡ crash
check_login_overrun_example =
    check_login_overrun [] (letters 450) (codes "x") sevens refl (omega (arith, length-letters 450))
      (omega (arith, length-letters 450))

timestamp_overrun_example :
    (send_request (pos 1) (pos 2) (pos 1_400_000_000) sevens ≡ crash)
    × (accept_friend_request (pos 1) (pos 2) (pos 1_400_000_000) sevens ≡ crash)
    × (add_user_chat (pos 1) (pos 2) (pos 0) (pos 1_400_000_000) sevens ≡ crash)
    × (add_chat (pos 1) (codes "talk") (pos 1_400_000_000) sevens ≡ crash)
    × (recover_user_chat (pos 1) (pos 2) (pos 1_400_000_000) sevens ≡ crash)
    × (del_user_chat (pos 1) (pos 2) (pos 1_400_000_000) sevens ≡ crash)
    × (del_user_all_chats (pos 1) (pos 1_400_000_000) sevens ≡ crash)
    × (change_admin (pos 1) (pos 2) (pos 1_400_000_000) sevens ≡ crash)
timestamp_overrun_example =
    timestamp_overrun (pos 1) (pos 2) (pos 0) (codes "talk") 1_400_000_000 sevens refl (omega arith)

writes_fit_example :
    let user = show_int (pos 1) in
    let chat = show_int (pos 2) in
    let time = show_int (pos 3) in
    let read = show_int (pos 4) in
    (send_request (pos 1) (pos 2) (pos 3) sevens
      ≡ sends_one sevens (insert_request ++ joined (request_values user chat time)))
    × (add_user_chat (pos 1) (pos 2) (pos 4) (pos 3) sevens
        ≡ sends_one sevens (insert_user_chat ++ joined (member_values user chat time read)))
    × (del_user_chat (pos 1) (pos 2) (pos 3) sevens
        ≡ sends_one sevens (update_rem_time ++ joined (removal_values user chat time)))
    × (change_admin (pos 1) (pos 2) (pos 3) sevens
        ≡ sends_one sevens (update_admin ++ joined (admin_values user chat time)))
writes_fit_example =
    writes_fit 1 2 3 4 sevens refl (omega arith) (omega arith) (omega arith) (omega arith)

small : (n : ℕ) → n < 2_147_483_648 → IsInt32 (pos n)
small n h = (h, omega arith)

wait_for_time-Ends_example : Ends (wait_for_time 3 clock 0 (pos 5) nothing_found)
wait_for_time-Ends_example =
    wait_for_time-Ends 2 3 clock 0 (pos 5) (pos 0) nothing_found (omega arith)
      (small 5 (omega arith)) (λ j. small 1000 (omega arith)) (λ before. refl)

wait_for_time_refused_example :
    (d : Conn) × (wait_for_time 9 clock 0 (pos 5) all_refused ≡ done none d)
wait_for_time_refused_example =
    wait_for_time_refused 9 clock 0 (pos 5) all_refused (small 5 (omega arith))
      (λ j. small 1000 (omega arith)) (λ queries. refl)

get_chat_info_never_ok_example :
    get_chat_info env false good_login (pos 5) sevens ≢ done soap_ok sevens
get_chat_info_never_ok_example = get_chat_info_never_ok env false good_login (pos 5) sevens sevens

-- Every query is answered with one message.
abbrev one_message : Conn
one_message = always (some (codes "ben") ∷ some (codes "hi") ∷ some (codes "12") ∷ none ∷ [])

abbrev message_list : MessageList
message_list = record {
  last_timestamp = pos 13;
  messages =
      record { user = codes "ben"; text = codes "hi"; file_name = none; send_date = pos 12 } ∷ [];
}

abbrev after_list : Conn
after_list = after (get_list_messages (pos 5) (pos 7) (pos 9) one_message) one_message

messages_listed :
    get_list_messages (pos 5) (pos 7) (pos 9) one_message
    ≡ done (pos 0, some message_list) after_list
unfolding get_list_messages send strcats show_int show_digits atoi scan_digits each_row latest
messages_listed = refl

get_list_messages_time_example :
    (ltb_ℤ (pos 9) (pos 13) ≡ true)
    × All (λ m. ltb_ℤ m.send_date (pos 13) ≡ true) message_list.messages
get_list_messages_time_example =
    get_list_messages_time (pos 5) (pos 7) (pos 9) (pos 0) message_list one_message after_list
      messages_listed

abbrev after_still : Conn → Conn
after_still c = after (still_users_in_chat (pos 5) c) c

abbrev after_del : Conn
after_del = after (del_chat (pos 5) (after_still first_refused)) first_refused

still_refused :
    still_users_in_chat (pos 5) first_refused ≡ done minus_one (after_still first_refused)
unfolding still_users_in_chat send strcats show_int show_digits
still_refused = refl

chat_removed : del_chat (pos 5) (after_still first_refused) ≡ done (pos 0) after_del
unfolding still_users_in_chat del_chat send strcats show_int show_digits
chat_removed = refl

abbrev after_admin : Conn
after_admin = after (is_admin (pos 7) (pos 5) (after_still sevens)) sevens

abbrev after_first : Conn
after_first = after (get_first_users_in_chat (pos 5) after_admin) sevens

abbrev after_change : Conn
after_change = after (change_admin (pos 7) (pos 5) (pos 9) after_first) sevens

still_found : still_users_in_chat (pos 5) sevens ≡ done (pos 1) (after_still sevens)
unfolding still_users_in_chat send strcats show_int show_digits
still_found = refl

admin_found : is_admin (pos 7) (pos 5) (after_still sevens) ≡ done (pos 1) after_admin
unfolding still_users_in_chat is_admin send strcats show_int show_digits
admin_found = refl

first_found : get_first_users_in_chat (pos 5) after_admin ≡ done (pos 7) after_first
unfolding still_users_in_chat is_admin get_first_users_in_chat send strcats show_int show_digits
    atoi scan_digits
first_found = refl

admin_changed : change_admin (pos 7) (pos 5) (pos 9) after_first ≡ done (pos 0) after_change
unfolding still_users_in_chat is_admin get_first_users_in_chat change_admin send strcats show_int
    show_digits atoi scan_digits
admin_changed = refl
