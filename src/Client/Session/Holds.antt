-- ===== src/Client/Session/Holds.antt =====
-- The invariant of the client of client/psd_ims_client.c, and the pieces of its operations that keep it.
use psd_ims.ItemList.Find.{Status-cases}
use psd_ims.Client.Members.{members_new}
use psd_ims.Client.Session.{whole, add_received_user, null_read, ReceivedUser}
use psd_ims.Prelude.{
  refl, WhenSome-next, length, WhenSome, ℕ, suc, ◌≡◌, ◌∙◌, Bool, true, false, Option, none, some,
  List, [], ◌∷◌, Text, inl, inr, Bool-cases, Option-cases,
}
use psd_ims.Prelude.Int.{ℤ}
use psd_ims.ItemList.{Status, ItemList}
use psd_ims.ItemList.Lookup.{IsMap, Keyed, list_add_item-IsMap}
use psd_ims.Client.Common.{ListInfo, by_name, delete_value-IsMap, set_timestamp}
use psd_ims.Client.Friends.{Friends, FriendInfo, fri_add_friend}
use psd_ims.Client.Requests.{FriendRequests, RequestInfo, req_add_request, req_del_request}
use psd_ims.Client.Chats.{add_members, write_chat, cha_add_chat, ChatInfo, Chats, cha_find_chat}
use psd_ims.Client.Chats.Hold.{
  ChatHolds, ChatsHold, cha_add_chat-ChatsHold, cha_find_chat-ChatHolds, set_timestamp-ChatsHold,
  write_chat-ChatsHold,
}
use psd_ims.Client.Network.{ReceivedRequest, ReceivedChat, ReceivedChats}
use psd_ims.Client.Network.Sound.{Sound}
use psd_ims.Client.Session.Receive.{find_chat_id}
use psd_ims.Client.Session.Restore.{by_friend}
use psd_ims.Client.Session.State.{PsdImsClient, max_members, max_messages}
use psd_ims.Client.Session.Notifications.{
  add_request, with_strings, add_null_member, names_of, Grants, add_received_chat, add_chats,
  add_new_friends, add_requests, change_chat, keep_chats, members_of,
}

abbrev pub by_request : Keyed RequestInfo Text
by_request = by_name (λ r. r.name)

-- The three lists are valid maps, those in each chat too, and the network's pointers are sound.
pub record Holds (c : PsdImsClient) : Type 0 where
  pub friends : IsMap by_friend c.friends
  pub requests : IsMap by_request c.requests
  pub chats : ChatsHold c.chats
  pub network : Sound c.network

pub set_timestamp-IsMap :
    {A V : Type 0} (k : Keyed A V) (l : ItemList A V ListInfo) (t : ℤ)
    → IsMap k l
    → IsMap k (set_timestamp l t)
set_timestamp-IsMap k l t m = record {
  valid = record {
    compares = m.valid.compares;
    counted = m.valid.counted;
    bounded = m.valid.bounded;
    distinct = m.valid.distinct;
  };
  compares_key = m.compares_key;
}

pub fri_add_friend-IsMap :
    (l : Friends) (name information : Text) (granted : Bool)
    → IsMap by_friend l
    → IsMap by_friend (fri_add_friend l name information granted).0
unfolding fri_add_friend
fri_add_friend-IsMap l name information false m = m
fri_add_friend-IsMap l name information true m =
    list_add_item-IsMap by_friend l (some (record { name = name; information = information })) true
      m

req_add_request-IsMap :
    (l : FriendRequests) (name : Text) (timestamp : ℤ) (granted : Bool)
    → IsMap by_request l
    → IsMap by_request (req_add_request l name timestamp granted).0
unfolding req_add_request
req_add_request-IsMap l name timestamp false m = m
req_add_request-IsMap l name timestamp true m =
    list_add_item-IsMap by_request l (some (record { name = name; timestamp = timestamp })) true m

pub req_del_request-IsMap :
    (l : FriendRequests) (name : Text)
    → IsMap by_request l
    → IsMap by_request (req_del_request l name).0
unfolding req_del_request
req_del_request-IsMap l name m = delete_value-IsMap by_request l name m

add_request-IsMap :
    (l : FriendRequests) (r : ReceivedRequest) (granted : Bool)
    → IsMap by_request l
    → WhenSome (λ x. IsMap by_request x.0) (add_request l r granted)
add_request-IsMap l r granted m = elim (Option-cases r.name) [
  | inr (name, e) ↦ rw (e, add_request) (req_add_request-IsMap l name r.timestamp granted m)
  | inl e ↦ elim (Bool-cases granted) [
    | inl t ↦ rw (e, t, add_request) tt
    | inr t ↦ rw (e, t, add_request) m
  ]
]

pub add_requests-IsMap :
    (l : FriendRequests) (rs : List ReceivedRequest) (granted : ℕ → Bool) (i : ℕ)
    → IsMap by_request l
    → WhenSome (IsMap by_request) (add_requests l rs granted i)
unfolding add_requests
add_requests-IsMap l [] granted i m = m
add_requests-IsMap l (r ∷ rs) granted i m =
    WhenSome-next (λ x. IsMap by_request x.0) (IsMap by_request) (add_request l r (granted i)) _
      (add_request-IsMap l r (granted i) m) (λ x k. add_requests-IsMap x.0 rs granted (suc i) k)

pub add_received_user-IsMap :
    (l : Friends) (u : ReceivedUser) (granted : Bool)
    → IsMap by_friend l
    → WhenSome (λ x. IsMap by_friend x.0) (add_received_user l u granted)
add_received_user-IsMap l u granted m = elim (Option-cases (whole u)) [
  | inr (f, e) ↦ rw (e, add_received_user) (fri_add_friend-IsMap l f.name f.information granted m)
  | inl e ↦ elim (Bool-cases granted) [
    | inl t ↦ rw (e, t, add_received_user) tt
    | inr t ↦ rw (e, t, add_received_user) m
  ]
]

pub add_new_friends-IsMap :
    (l : Friends) (us : List ReceivedUser) (granted : ℕ → Bool) (i : ℕ)
    → IsMap by_friend l
    → WhenSome (IsMap by_friend) (add_new_friends l us granted i)
unfolding add_new_friends
add_new_friends-IsMap l [] granted i m = m
add_new_friends-IsMap l (u ∷ us) granted i m =
    WhenSome-next (λ x. IsMap by_friend x.0) (IsMap by_friend) (add_received_user l u (granted i)) _
      (add_received_user-IsMap l u (granted i) m)
      (λ x k. add_new_friends-IsMap x.0 us granted (suc i) k)

null_read-When :
    {L : Type 0} (P : L → Type 0) (l : L) (granted : Bool)
    → P l
    → WhenSome (λ x. P x.0) (null_read l granted)
null_read-When P l true h = tt
null_read-When P l false h = h

with_strings-When :
    (P : Chats → Type 0) (l : Chats) (r : ReceivedChat) (granted : Bool)
    (f : Text → Text → Option (Chats × Status))
    → P l
    → ((description admin : Text) → WhenSome (λ x. P x.0) (f description admin))
    → WhenSome (λ x. P x.0) (with_strings l r granted f)
with_strings-When P l r granted f h k = elim (Option-cases r.description) [
  | inl e ↦ rw (e, with_strings) (null_read-When P l granted h)
  | inr (description, e) ↦ elim (Option-cases r.admin) [
    | inl d ↦ rw (e, d, with_strings) (null_read-When P l granted h)
    | inr (admin, d) ↦ rw (e, d, with_strings) (k description admin)
  ]
]

add_null_member-When :
    (P : Chats → Type 0) (l : Chats) (names : List (Text × Option FriendInfo)) (granted : Bool)
    → P l
    → WhenSome (λ x. P x.0) (add_null_member l names granted)
add_null_member-When P l names granted h = elim (Option-cases (members_new max_members granted)) [
  | inl e ↦ rw (e, add_null_member) h
  | inr (members, e) ↦ elim (Status-cases (add_members members names granted).1) [
    | inl t ↦ rw (e, t, add_null_member) tt
    | inr t ↦ rw (e, t, add_null_member) h
  ]
]

-- What holds of the list before and after `cha_add_chat` holds after a chat that has been received.
pub add_received_chat-When :
    (P : Chats → Type 0) (friends : Friends) (l : Chats) (r : ReceivedChat) (granted : Bool)
    → P l
    → ((description admin : Text)
        → P
            (cha_add_chat l r.chat_id description admin
              (members_of friends (names_of r.members).0)
              max_members
              max_messages
              r.read_timestamp
              r.all_read_timestamp
              granted).0)
    → WhenSome (λ x. P x.0) (add_received_chat friends l r granted)
add_received_chat-When P friends l r granted h k = elim (Bool-cases (names_of r.members).1) [
  | inl t ↦ rw (t, add_received_chat) (with_strings-When P l r granted _ h k)
  | inr t ↦ go friends.items refl t
]
  where
    go :
        (fs : List FriendInfo)
        → friends.items ≡ fs
        → (names_of r.members).1 ≡ false
        → WhenSome (λ x. P x.0) (add_received_chat friends l r granted)
    go [] e t =
        rw (t, e, add_received_chat)
          (with_strings-When P l r granted _ h
            (λ d a. add_null_member-When P l (members_of friends (names_of r.members).0) granted h))
    go (f ∷ fs) e t = rw (t, e, add_received_chat) tt

pub add_chat-ChatsHold :
    (friends : Friends) (l : Chats) (r : ReceivedChat) (granted : Bool)
    → ChatsHold l
    → WhenSome (λ x. ChatsHold x.0) (add_received_chat friends l r granted)
add_chat-ChatsHold friends l r granted h =
    add_received_chat-When ChatsHold friends l r granted h (λ description admin.
      cha_add_chat-ChatsHold l r.chat_id description admin
        (members_of friends (names_of r.members).0) max_members max_messages r.read_timestamp
        r.all_read_timestamp granted h)

add_chats-ChatsHold :
    (friends : Friends) (l : Chats) (rs : List ReceivedChat) (g : Grants) (i : ℕ)
    → ChatsHold l
    → WhenSome (λ x. ChatsHold x.0) (add_chats friends l rs g i)
unfolding add_chats
add_chats-ChatsHold friends l [] g i h = h
add_chats-ChatsHold friends l (r ∷ rs) g i h = elim (Bool-cases (g.arrays i)) [
  | inr e ↦ rw (e, add_chats) h
  | inl e ↦
      rw (e, add_chats)
        (WhenSome-next (λ x. ChatsHold x.0) (λ x. ChatsHold x.0)
          (add_received_chat friends l r (g.blocks i)) (λ x. add_chats friends x.0 rs g (suc i))
          (add_chat-ChatsHold friends l r (g.blocks i) h)
          (λ x k. add_chats-ChatsHold friends x.0 rs g (suc i) k))
]

-- A client with other chats.
pub with_chats :
    (c : PsdImsClient) (l : Chats) → Holds c → ChatsHold l → Holds (record c { chats = l })
with_chats c l h k = record {
  friends = h.friends;
  requests = h.requests;
  chats = k;
  network = h.network;
}

pub keep_chats-Holds :
    (c : PsdImsClient) (answer : Option ReceivedChats) (g : Grants)
    → Holds c
    → WhenSome (λ x. Holds x.0) (keep_chats c answer g)
unfolding keep_chats
keep_chats-Holds c none g h = h
keep_chats-Holds c (some received) g h =
    go (add_chats c.friends c.chats received.chat_info g 0)
      (add_chats-ChatsHold c.friends c.chats received.chat_info g 0 h.chats)
  where
    go :
        (r : Option (Chats × Bool))
        → WhenSome (λ x. ChatsHold x.0) r
        → WhenSome {A = PsdImsClient × Option ℕ}
            (λ x. Holds x.0)
            (elim r [
              | none ↦ none
              | some (l, false) ↦ some (record c { chats = l }, none)
              | some (l, true) ↦ some (
                record c { chats = set_timestamp l received.last_timestamp },
                some (length received.chat_info),
              )
            ])
    go none k = tt
    go (some (l, false)) k = with_chats c l h k
    go (some (l, true)) k = with_chats c _ h (set_timestamp-ChatsHold l received.last_timestamp k)

-- A change of a chat that keeps its id and its invariant, where it is no fault.
pub record KeepsChat (f : ChatInfo → Option ChatInfo) : Type 0 where
  pub id : (c : ChatInfo) → WhenSome (λ d. d.id ≡ c.id) (f c)
  pub holds : (c : ChatInfo) → ChatHolds c → WhenSome ChatHolds (f c)

pub change_chat-Holds :
    (c : PsdImsClient) (id : ℤ) (f : ChatInfo → Option ChatInfo)
    → Holds c
    → KeepsChat f
    → WhenSome Holds (change_chat c id f)
change_chat-Holds c id f h k = elim (Option-cases (cha_find_chat c.chats id)) [
  | inl e ↦ rw (e, change_chat) h
  | inr (chat, e) ↦
      rw (e, change_chat)
        (go chat e (f chat) (k.id chat)
          (k.holds chat (cha_find_chat-ChatHolds c.chats id chat h.chats e)))
]
  where
    go :
        (chat : ChatInfo)
        → cha_find_chat c.chats id ≡ some chat
        → (o : Option ChatInfo) → WhenSome (λ d. d.id ≡ chat.id) o
        → WhenSome ChatHolds o
        → WhenSome Holds (elim o [
          | none ↦ none
          | some after ↦ some (record c { chats = write_chat c.chats id after })
        ])
    go chat e none i m = tt
    go chat e (some after) i m = with_chats c _ h (
        write_chat-ChatsHold c.chats id after h.chats
          (i ∙ find_chat_id c.chats id chat h.chats.map e) m)
