-- ===== src/Client/Session.antt =====
-- client/psd_ims_client.c: how what the network layer has received gets into the client's lists. The
-- network layer (client/network.c, over stubs that gSOAP generates) is a parameter: a function from
-- the arguments of a call to its answer, `none` for NULL.
pub mod Restore
pub mod Receive
pub mod State
pub mod Sending
pub mod Notifications
pub mod Fetching
pub mod Acts
pub mod Holds
pub mod Rounds
pub mod FetchedMessages
pub mod FetchedData
pub mod Signing
pub mod Reach
pub mod Whole
pub mod Safe
pub mod SafeNews
pub mod SafeCalls
pub mod Faultless
pub mod Refusals
pub mod Logins
pub mod Answers
pub mod Shown
pub mod Marked
use psd_ims.Prelude.{
  ℕ, zero, suc, ◌+◌, Bool, true, false, Option, none, some, List, [], ◌∷◌, length, Text, same_text,
  map, if◌then◌else◌, ltb,
}
use psd_ims.Prelude.Int.{ℤ, pos, negsuc}
use psd_ims.ItemList.{Status, ok, failed}
use psd_ims.Client.Common.{set_timestamp}
use psd_ims.Client.Friends.{FriendInfo, Friends, fri_add_friend, fri_del_friend, fri_find_friend}
use psd_ims.Client.Requests.{FriendRequests, req_add_request}
use psd_ims.Client.Chats.{
  ChatInfo, Chats, Incoming, cha_add_chat, cha_add_messages, cha_find_chat, write_chat,
}

abbrev pub minus_one : ℤ
minus_one = negsuc 0

-- `psdims__message_info` and `psdims__message_list`, as far as the client reads them.
pub record ReceivedMessage : Type 0 where
  pub user : Option Text
  pub text : Option Text
  pub file_name : Option Text
  pub send_date : ℤ

pub record ReceivedMessages : Type 0 where
  pub messages : List ReceivedMessage
  pub last_timestamp : ℤ

-- One entry of the four arrays of `_recv_messages`: the user's own name becomes NULL. A name that `strcmp`
-- cannot read, the user's or the sender's, is a fault.
abbrev pub incoming : (user_name : Option Text) → ReceivedMessage → Option Incoming
incoming none m = none
incoming (some user_name) m = elim m.user [
  | none ↦ none
  | some user ↦ some (record {
    sender = if same_text user user_name then none else some user;
    text = m.text;
    send_timestamp = m.send_date;
    attach_path = m.file_name;
  })
]

-- The loop that fills the four arrays, whose blocks are not tested: a fault where `malloc` has refused one.
unfoldable pub all_incoming :
    (arrays : Bool) (user_name : Option Text) → List ReceivedMessage → Option (List Incoming)
all_incoming arrays user_name [] = some []
all_incoming arrays user_name (m ∷ ms) =
    let rest = all_incoming arrays user_name ms in
    elim arrays [
      | false ↦ none
      | true ↦ elim (incoming user_name m) [
        | none ↦ none
        | some x ↦ elim rest [ none ↦ none | some xs ↦ some (x ∷ xs) ]
      ]
    ]

-- What `_recv_messages` does with the arrays.
abbrev pub keep_incoming :
    ReceivedMessages → List Incoming → (granted : ℕ → Bool) → ChatInfo → ChatInfo × ℤ
keep_incoming list ms granted chat =
    let (after, status) = cha_add_messages chat ms granted in
    elim status [
      | failed ↦ (after, minus_one)
      | ok ↦ (
        record after {
          pending_messages = 0;
          messages = set_timestamp after.messages list.last_timestamp;
        },
        pos (length list.messages),
      )
    ]

-- `_recv_messages`; `net` is `net_recv_pending_messages`, and `none` a fault.
unfoldable pub recv_messages :
    (user_name : Option Text) (net : (chat_id timestamp : ℤ) → Option ReceivedMessages)
    (arrays : Bool) (granted : ℕ → Bool)
    → ChatInfo
    → Option (ChatInfo × ℤ)
unfolding all_incoming
recv_messages user_name net arrays granted chat =
    elim (net chat.id chat.messages.list_info.timestamp) [
      | none ↦ some (chat, minus_one)
      | some list ↦ elim (all_incoming arrays user_name list.messages) [
        | none ↦ none
        | some ms ↦ some (keep_incoming list ms granted chat)
      ]
    ]

-- The chat of a list that a call has written to, and its value.
abbrev pub written_back : Chats → ℤ → Option (ChatInfo × ℤ) → Option (Chats × ℤ)
written_back chats chat_id none = none
written_back chats chat_id (some (after, value)) = some (write_chat chats chat_id after, value)

unfoldable pub psd_recv_messages :
    (user_name : Option Text) (net : (chat_id timestamp : ℤ) → Option ReceivedMessages)
    (arrays : Bool) (granted : ℕ → Bool)
    → Chats
    → ℤ
    → Option (Chats × ℤ)
unfolding recv_messages
psd_recv_messages user_name net arrays granted chats chat_id = elim (cha_find_chat chats chat_id) [
  | none ↦ some (chats, minus_one)
  | some chat ↦ written_back chats chat_id (recv_messages user_name net arrays granted chat)
]

unfoldable pub psd_recv_pending_messages :
    (user_name : Option Text) (net : (chat_id timestamp : ℤ) → Option ReceivedMessages)
    (arrays : Bool) (granted : ℕ → Bool)
    → Chats
    → ℤ
    → Option (Chats × ℤ)
unfolding recv_messages
psd_recv_pending_messages user_name net arrays granted chats chat_id =
    elim (cha_find_chat chats chat_id) [
      | none ↦ some (chats, minus_one)
      | some chat ↦ elim (ltb 0 chat.pending_messages) [
        | false ↦ some (chats, pos 0)
        | true ↦ written_back chats chat_id (recv_messages user_name net arrays granted chat)
      ]
    ]

-- `psdims__user_info` and `psdims__user_list`
pub record ReceivedUser : Type 0 where
  pub name : Option Text
  pub information : Option Text

pub record ReceivedFriends : Type 0 where
  pub user : List ReceivedUser
  pub last_timestamp : ℤ

-- The user, where neither string is NULL.
abbrev pub whole : ReceivedUser → Option FriendInfo
whole u = elim u.name [
  | none ↦ none
  | some name ↦ elim u.information [
    | none ↦ none
    | some information ↦ some (record { name = name; information = information })
  ]
]

-- What comes of a call that asks for its blocks and then takes the length of NULL: -1 where `malloc` refuses
-- one of the blocks asked for before, else a fault.
abbrev pub null_read : {L : Type 0} → L → (granted : Bool) → Option (L × Status)
null_read l true = none
null_read l false = some (l, failed)

-- `fri_add_friend` with the two strings of a user that has been received.
abbrev pub add_received_user : Friends → ReceivedUser → (granted : Bool) → Option (Friends × Status)
add_received_user l u granted = elim (whole u) [
  | none ↦ null_read l granted
  | some f ↦ some (fri_add_friend l f.name f.information granted)
]

-- Where the first loop of `psd_recv_friends` stops: the list, the friends that it has added, the last
-- one first, and whether it got through.
pub record Added : Type 0 where
  pub friends : Friends
  pub added : List ReceivedUser
  pub all : Bool

unfoldable pub add_friends :
    Friends → List ReceivedUser → List ReceivedUser → (ℕ → Bool) → ℕ → Option Added
add_friends l [] added granted i = some (record { friends = l; added = added; all = true })
add_friends l (u ∷ us) added granted i = elim (add_received_user l u (granted i)) [
  | none ↦ none
  | some (after, ok) ↦ add_friends after us (u ∷ added) granted (suc i)
  | some (after, failed) ↦ some (record { friends = after; added = added; all = false })
]

-- The second loop, which takes the friends out again, the last one first. It comes to users that have been
-- added, whose names are not NULL.
unfoldable pub restore : Friends → List ReceivedUser → Friends × Status
restore l [] = (l, ok)
restore l (u ∷ us) = elim u.name [
  | none ↦ (l, failed)
  | some name ↦ elim (fri_del_friend l name).1 [
    | ok ↦ restore (fri_del_friend l name).0 us
    | failed ↦ ((fri_del_friend l name).0, failed)
  ]
]

-- `net` is `net_get_friend_list`; `none` is a fault.
unfoldable pub psd_recv_friends :
    (net : (timestamp : ℤ) → Option ReceivedFriends) (granted : ℕ → Bool)
    → Friends
    → Option (Friends × ℤ)
unfolding add_friends restore
psd_recv_friends net granted l = elim (net l.list_info.timestamp) [
  | none ↦ some (l, minus_one)
  | some received ↦ elim (add_friends l received.user [] granted 0) [
    | none ↦ none
    | some r ↦ some (
        if r.all
        then (set_timestamp r.friends received.last_timestamp, pos (length received.user))
        else ((restore r.friends r.added).0, minus_one))
  ]
]
