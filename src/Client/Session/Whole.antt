-- ===== src/Client/Session/Whole.antt =====
-- The answers of the server in which no string is NULL, and the lists of the client that take them in without a
-- fault (client/psd_ims_client.c).
use psd_ims.ItemList.Find.{Status-cases}
use psd_ims.Client.Requests.{req_add_request, FriendRequests}
use psd_ims.Client.Session.{
  ReceivedFriends, ReceivedMessage, add_friends, ReceivedUser, ReceivedMessages, whole,
  all_incoming, psd_recv_friends, recv_messages,
}
use psd_ims.Client.Common.{set_timestamp}
use psd_ims.Prelude.{
  false, length, All, Text, WhenSome, ℕ, suc, ◌≡◌, refl, Bool, true, Option, none, some, List, [],
  ◌∷◌, arith, inl, inr, Option-cases, Bool-cases, is_some,
}
use psd_ims.Prelude.Int.{ℤ}
use psd_ims.Client.Friends.{fri_add_friend, Friends}
use psd_ims.Client.Chats.{Chats, ChatInfo}
use psd_ims.Client.Network.{
  ReceivedRequest, Credentials, ReceivedChats, ReceivedChat, NotifChatInfo, Stubs,
  ReceivedNotifications,
}
use psd_ims.Client.Session.State.{PsdImsClient}
use psd_ims.Client.Session.Notifications.{
  names_of, add_received_chat, add_requests, add_new_friends, add_chats, keep_chats, Grants,
}

-- No fault.
abbrev pub Ends : {X : Type 0} → Option X → Type 0
Ends r = is_some r ≡ true

-- What holds of what has been received, where no string in it is NULL.
abbrev pub WholeChat : ReceivedChat → Type 0
WholeChat r =
    (is_some r.description ≡ true) × (is_some r.admin ≡ true) × ((names_of r.members).1 ≡ true)

pub record WholeNews (n : ReceivedNotifications) : Type 0 where
  pub requests : All (λ r. is_some r.name ≡ true) n.friend_request
  pub friends : All (λ u. is_some (whole u) ≡ true) n.new_friends
  pub members : All (λ e. is_some e.name ≡ true) n.chat_members
  pub rem_members : All (λ e. is_some e.name ≡ true) n.rem_chat_members
  pub admins : All (λ e. is_some e.name ≡ true) n.chat_admins

-- A server whose answers hold no NULL where the client reads a string, and a `malloc` that grants the block in
-- which the fault of a call is printed.
pub record Complete {W : Type 0} (stubs : Stubs W) : Type 0 where
  pub errors : (w : W) → stubs.error_granted w ≡ true
  pub users :
      (url : Option Text) (login : Credentials) (w : W)
      → WhenSome (λ u. is_some u.information ≡ true) (stubs.call_get_user url login w).0
  pub news :
      (t : ℤ) (sync : List NotifChatInfo) (url : Option Text) (login : Credentials) (w : W)
      → WhenSome WholeNews (stubs.call_get_pending_notifications t sync url login w).0
  pub chats :
      (t : ℤ) (url : Option Text) (login : Credentials) (w : W)
      → WhenSome (λ r. All WholeChat r.chat_info) (stubs.call_get_chats t url login w).0
  pub friends :
      (t : ℤ) (url : Option Text) (login : Credentials) (w : W)
      → WhenSome
          (λ r. All (λ u. is_some (whole u) ≡ true) r.user)
          (stubs.call_get_friends t url login w).0
  pub messages :
      (id t : ℤ) (url : Option Text) (login : Credentials) (w : W)
      → WhenSome
          (λ r. All (λ m. is_some m.user ≡ true) r.messages)
          (stubs.call_get_chat_messages id t url login w).0

-- The lists that the client adds to.
pub add_requests-Ends :
    (l : FriendRequests) (rs : List ReceivedRequest) (granted : ℕ → Bool) (i : ℕ)
    → All (λ r. is_some r.name ≡ true) rs
    → Ends (add_requests l rs granted i)
unfolding add_requests
add_requests-Ends l [] granted i h = refl
add_requests-Ends l (r ∷ rs) granted i h = elim (Option-cases r.name) [
  | inl e ↦ absurd (ground (arith, h.0, e))
  | inr (name, e) ↦
      rw (e, add_requests)
        (add_requests-Ends (req_add_request l name r.timestamp (granted i)).0 rs granted (suc i)
          h.1)
]

pub add_new_friends-Ends :
    (l : Friends) (us : List ReceivedUser) (granted : ℕ → Bool) (i : ℕ)
    → All (λ u. is_some (whole u) ≡ true) us
    → Ends (add_new_friends l us granted i)
unfolding add_new_friends
add_new_friends-Ends l [] granted i h = refl
add_new_friends-Ends l (u ∷ us) granted i h = elim (Option-cases (whole u)) [
  | inl e ↦ absurd (ground (arith, h.0, e))
  | inr (f, e) ↦
      rw (e, add_new_friends)
        (add_new_friends-Ends (fri_add_friend l f.name f.information (granted i)).0 us granted
          (suc i) h.1)
]

add_friends-Ends :
    (l : Friends) (us done : List ReceivedUser) (granted : ℕ → Bool) (i : ℕ)
    → All (λ u. is_some (whole u) ≡ true) us
    → Ends (add_friends l us done granted i)
unfolding add_friends
add_friends-Ends l [] done granted i h = refl
add_friends-Ends l (u ∷ us) done granted i h = elim (Option-cases (whole u)) [
  | inl e ↦ absurd (ground (arith, h.0, e))
  | inr (f, e) ↦ elim (Status-cases (fri_add_friend l f.name f.information (granted i)).1) [
    | inr s ↦ rw (e, s, add_friends) refl
    | inl s ↦
        rw (e, s, add_friends)
          (add_friends-Ends (fri_add_friend l f.name f.information (granted i)).0 us (u ∷ done)
            granted (suc i) h.1)
  ]
]

add_received_chat-Ends :
    (friends : Friends) (l : Chats) (r : ReceivedChat) (granted : Bool)
    → WholeChat r
    → Ends (add_received_chat friends l r granted)
add_received_chat-Ends friends l r granted h = elim (Option-cases r.description) [
  | inl e ↦ absurd (ground (arith, h.0, e))
  | inr (description, e) ↦ elim (Option-cases r.admin) [
    | inl d ↦ absurd (ground (arith, h.1, d))
    | inr (admin, d) ↦ rw (h.2, e, d, add_received_chat) refl
  ]
]

add_chats-Ends :
    (friends : Friends) (l : Chats) (rs : List ReceivedChat) (g : Grants) (i : ℕ)
    → All WholeChat rs
    → Ends (add_chats friends l rs g i)
unfolding add_chats
add_chats-Ends friends l [] g i h = refl
add_chats-Ends friends l (r ∷ rs) g i h = elim (Bool-cases (g.arrays i)) [
  | inr e ↦ rw (e, add_chats) refl
  | inl e ↦ elim (Option-cases (add_received_chat friends l r (g.blocks i))) [
    | inl n ↦ absurd (ground (arith, n, add_received_chat-Ends friends l r (g.blocks i) h.0))
    | inr (x, n) ↦ rw (e, n, add_chats) (add_chats-Ends friends x.0 rs g (suc i) h.1)
  ]
]

pub keep_chats-Ends :
    (c : PsdImsClient) (answer : Option ReceivedChats) (g : Grants)
    → WhenSome (λ r. All WholeChat r.chat_info) answer
    → Ends (keep_chats c answer g)
unfolding keep_chats
keep_chats-Ends c none g h = refl
keep_chats-Ends c (some received) g h =
    go (add_chats c.friends c.chats received.chat_info g 0)
      (add_chats-Ends c.friends c.chats received.chat_info g 0 h)
  where
    go :
        (r : Option (Chats × Bool))
        → Ends r
        → Ends {X = PsdImsClient × Option ℕ} (elim r [
          | none ↦ none
          | some (l, false) ↦ some (record c { chats = l }, none)
          | some (l, true) ↦ some (
            record c { chats = set_timestamp l received.last_timestamp },
            some (length received.chat_info),
          )
        ])
    go none k = k
    go (some (l, false)) k = refl
    go (some (l, true)) k = refl

pub psd_recv_friends-Ends :
    (answer : Option ReceivedFriends) (granted : ℕ → Bool) (l : Friends)
    → WhenSome (λ r. All (λ u. is_some (whole u) ≡ true) r.user) answer
    → Ends (psd_recv_friends (λ timestamp. answer) granted l)
unfolding psd_recv_friends
psd_recv_friends-Ends none granted l h = refl
psd_recv_friends-Ends (some received) granted l h =
    elim (Option-cases (add_friends l received.user [] granted 0)) [
      | inl n ↦ absurd (ground (arith, n, add_friends-Ends l received.user [] granted 0 h))
      | inr (r, n) ↦ rw (n, psd_recv_friends) refl
    ]

all_incoming-Ends :
    (own : Text) (ms : List ReceivedMessage)
    → All (λ m. is_some m.user ≡ true) ms
    → Ends (all_incoming true (some own) ms)
unfolding all_incoming
all_incoming-Ends own [] h = refl
all_incoming-Ends own (m ∷ ms) h = elim (Option-cases m.user) [
  | inl e ↦ absurd (ground (arith, h.0, e))
  | inr (user, e) ↦ elim (Option-cases (all_incoming true (some own) ms)) [
    | inl n ↦ absurd (ground (arith, n, all_incoming-Ends own ms h.1))
    | inr (xs, n) ↦ rw (e, n, all_incoming) refl
  ]
]

pub recv_messages-Ends :
    (own : Text) (answer : Option ReceivedMessages) (granted : ℕ → Bool) (chat : ChatInfo)
    → WhenSome (λ r. All (λ m. is_some m.user ≡ true) r.messages) answer
    → Ends (recv_messages (some own) (λ id timestamp. answer) true granted chat)
unfolding recv_messages
recv_messages-Ends own none granted chat h = refl
recv_messages-Ends own (some list) granted chat h =
    elim (Option-cases (all_incoming true (some own) list.messages)) [
      | inl n ↦ absurd (ground (arith, n, all_incoming-Ends own list.messages h))
      | inr (ms, n) ↦ rw (n, recv_messages) refl
    ]
