-- ===== src/Client/Session/Notifications.antt =====
-- client/psd_ims_client.c: the chat list and the notifications, as they come from the server.
use psd_ims.Prelude.{
  ℕ, suc, ◌+◌, Bool, true, false, Option, none, some, List, [], ◌∷◌, map, length, Text,
  if◌then◌else◌,
}
use psd_ims.Prelude.Int.{ℤ}
use psd_ims.Client.Common.{set_timestamp}
use psd_ims.Client.Friends.{Friends, FriendInfo, fri_find_friend}
use psd_ims.Client.Requests.{FriendRequests, req_add_request}
use psd_ims.Client.Chats.{
  ChatInfo, Chats, add_members, cha_add_chat, cha_add_member, cha_change_admin, cha_del_member,
  cha_find_chat, write_chat,
}
use psd_ims.Client.Network.{
  NotifChatInfo, NotifMemberInfo, ReceivedNotifications, ReceivedChat, ReceivedChats, Run, Stubs,
  ◌>>=◌, pure, lift, ReceivedRequest,
}
use psd_ims.ItemList.{Status, ok, failed}
use psd_ims.Client.Members.{members_new}
use psd_ims.Client.Session.{ReceivedUser, add_received_user, null_read}
use psd_ims.Client.Network.Calls.{net_get_chat_list, net_recv_notifications}
use psd_ims.Client.Session.State.{PsdImsClient, max_members, max_messages}

-- What `malloc` grants to one call of `psd_recv_chats`: the answer, the two temporary arrays of each chat,
-- and the blocks of each chat.
pub record Grants : Type 0 where
  pub answer : Bool
  pub arrays : ℕ → Bool
  pub blocks : ℕ → Bool

-- The arrays `member_names` and `members`.
abbrev pub members_of : Friends → List Text → List (Text × Option FriendInfo)
members_of friends names = map (λ name. (name, fri_find_friend friends name)) names

-- The names up to the first that is NULL, and whether that is all of them.
abbrev pub names_of : List (Option Text) → List Text × Bool
names_of [] = ([], true)
names_of (none ∷ names) = ([], false)
names_of (some name ∷ names) = let (rest, all) = names_of names in (name ∷ rest, all)

-- What `cha_add_chat` does where the member after `names` is NULL: its name is not read where one before it
-- cannot be added.
abbrev pub add_null_member :
    Chats → List (Text × Option FriendInfo) → (granted : Bool) → Option (Chats × Status)
add_null_member l names granted = elim (members_new max_members granted) [
  | none ↦ some (l, failed)
  | some members ↦ elim (add_members members names granted).1 [
    | failed ↦ some (l, failed)
    | ok ↦ none
  ]
]

-- The description and the admin of a chat, whose lengths `cha_add_chat` takes first.
abbrev pub with_strings :
    Chats
    → ReceivedChat
    → (granted : Bool) → (Text → Text → Option (Chats × Status))
    → Option (Chats × Status)
with_strings l r granted f = elim r.description [
  | none ↦ null_read l granted
  | some description ↦ elim r.admin [
    | none ↦ null_read l granted
    | some admin ↦ f description admin
  ]
]

-- The temporary arrays and `cha_add_chat` with a chat that the server has sent. A member that is NULL is
-- compared with each friend.
abbrev pub add_received_chat :
    Friends → Chats → ReceivedChat → (granted : Bool) → Option (Chats × Status)
add_received_chat friends l r granted =
    let names = members_of friends (names_of r.members).0 in
    elim (names_of r.members).1 [
      | true ↦ with_strings l r granted (λ description admin. some (
          cha_add_chat l r.chat_id description admin names max_members max_messages r.read_timestamp
            r.all_read_timestamp granted))
      | false ↦ elim friends.items [
        | [] ↦ with_strings l r granted (λ description admin. add_null_member l names granted)
        | friend ∷ rest ↦ none
      ]
    ]

-- The loop of `psd_recv_chats`, which goes on where a chat cannot be added, and whether it got through.
unfoldable pub add_chats : Friends → Chats → List ReceivedChat → Grants → ℕ → Option (Chats × Bool)
add_chats friends l [] g i = some (l, true)
add_chats friends l (r ∷ rs) g i = elim (g.arrays i) [
  | false ↦ some (l, false)
  | true ↦ elim (add_received_chat friends l r (g.blocks i)) [
    | none ↦ none
    | some (after, status) ↦ add_chats friends after rs g (suc i)
  ]
]

-- What `psd_recv_chats` does with the answer; the result is the number of chats, `none` for -1.
unfoldable pub keep_chats :
    PsdImsClient → Option ReceivedChats → Grants → Option (PsdImsClient × Option ℕ)
unfolding add_chats
keep_chats c none g = some (c, none)
keep_chats c (some received) g = elim (add_chats c.friends c.chats received.chat_info g 0) [
  | none ↦ none
  | some (l, false) ↦ some (record c { chats = l }, none)
  | some (l, true) ↦ some (
    record c { chats = set_timestamp l received.last_timestamp },
    some (length received.chat_info),
  )
]

-- `req_add_request` with an entry that has been received.
abbrev pub add_request :
    FriendRequests → ReceivedRequest → (granted : Bool) → Option (FriendRequests × Status)
add_request l r granted = elim r.name [
  | none ↦ null_read l granted
  | some name ↦ some (req_add_request l name r.timestamp granted)
]

unfoldable pub add_requests :
    FriendRequests → List ReceivedRequest → (granted : ℕ → Bool) → ℕ → Option FriendRequests
add_requests l [] granted i = some l
add_requests l (r ∷ rs) granted i = elim (add_request l r (granted i)) [
  | none ↦ none
  | some (after, status) ↦ add_requests after rs granted (suc i)
]

unfoldable pub add_new_friends :
    Friends → List ReceivedUser → (granted : ℕ → Bool) → ℕ → Option Friends
add_new_friends l [] granted i = some l
add_new_friends l (u ∷ us) granted i = elim (add_received_user l u (granted i)) [
  | none ↦ none
  | some (after, status) ↦ add_new_friends after us granted (suc i)
]

-- The chats' ids and read timestamps that `psd_recv_notifications` sends.
abbrev pub sync_of : Chats → List NotifChatInfo
sync_of l = map (λ chat. record { chat_id = chat.id; timestamp = chat.read_timestamp }) l.items

-- The two arrays in which they stand, whose blocks are not tested: a fault where `malloc` has refused one and
-- there is a chat.
abbrev pub synced : Chats → (arrays : Bool) → Option (List NotifChatInfo)
synced l arrays = elim l.items [
  | [] ↦ some []
  | chat ∷ chats ↦ if arrays then some (sync_of l) else none
]

-- What the five loops over chats do to a chat that they find; the last argument is `malloc`'s answer. A name
-- that is NULL is a fault where it is compared with another or its length is taken.
abbrev pub Change : Type 0 → Type 0
Change E = Friends → ChatInfo → E → (granted : Bool) → Option ChatInfo

abbrev pub new_member : Change NotifMemberInfo
new_member friends chat e granted = elim e.name [
  | some name ↦ some (cha_add_member chat (fri_find_friend friends name) name granted).0
  | none ↦ elim friends.items [ [] ↦ if granted then none else some chat | friend ∷ rest ↦ none ]
]

abbrev pub lost_member : Change NotifMemberInfo
lost_member friends chat e granted = elim e.name [
  | some name ↦ some (cha_del_member chat name).0
  | none ↦ elim chat.members.items [ [] ↦ some chat | member ∷ rest ↦ none ]
]

abbrev pub new_admin : Change NotifMemberInfo
new_admin friends chat e granted = elim e.name [
  | some name ↦ some (cha_change_admin chat name granted).0
  | none ↦ elim chat.members.items [ [] ↦ some chat | member ∷ rest ↦ none ]
]

abbrev pub has_messages : Change NotifChatInfo
has_messages friends chat e granted = some (record chat { pending_messages = 1 })

abbrev pub read_by_all : Change NotifChatInfo
read_by_all friends chat e granted = some (record chat { all_read_timestamp = e.timestamp })

-- A write to the chat with an id, where there is one.
abbrev pub change_chat : PsdImsClient → ℤ → (ChatInfo → Option ChatInfo) → Option PsdImsClient
change_chat c id f = elim (cha_find_chat c.chats id) [
  | none ↦ some c
  | some chat ↦ elim (f chat) [
    | none ↦ none
    | some after ↦ some (record c { chats = write_chat c.chats id after })
  ]
]

-- What `malloc` grants in one round of such a loop.
pub record RoundGrants : Type 0 where
  pub fetch : Grants
  pub entry : Bool

module _ {W : Type 0} (stubs : Stubs W) where
  unfoldable pub psd_recv_chats : PsdImsClient → Grants → Run W (PsdImsClient × Option ℕ)
  psd_recv_chats c g = do
    answer ← net_get_chat_list stubs c.network c.chats.list_info.timestamp g.answer
    lift (keep_chats c answer g)

  -- A chat that is not known is asked for once.
  unfoldable pub fetch_missing : PsdImsClient → ℤ → Grants → Run W PsdImsClient
  unfolding psd_recv_chats
  fetch_missing c id g = elim (cha_find_chat c.chats id) [
    | none ↦ do (after, n) ← psd_recv_chats c g; pure after
    | some chat ↦ pure c
  ]

  -- One of the five loops. A chat that is still not known is passed over.
  unfoldable pub for_chats :
      {E : Type 0}
      → (E → ℤ)
      → Change E
      → PsdImsClient
      → List E
      → (ℕ → RoundGrants)
      → ℕ
      → Run W PsdImsClient
  unfolding fetch_missing
  for_chats id f c [] g i w = some (c, w)
  for_chats id f c (e ∷ es) g i w = elim (fetch_missing c (id e) (g i).fetch w) [
    | none ↦ none
    | some (after, w2) ↦
        elim (change_chat after (id e) (λ chat. f after.friends chat e (g i).entry)) [
          | none ↦ none
          | some next ↦ for_chats id f next es g (suc i) w2
        ]
  ]

  -- The five loops over chats; `g` is asked for the round of each.
  unfoldable pub chat_loops :
      PsdImsClient → ReceivedNotifications → (g : ℕ → ℕ → RoundGrants) → Run W (PsdImsClient × ℕ)
  unfolding for_chats
  chat_loops c n g = do
    c2 ← for_chats (λ e. e.chat_id) new_member c n.chat_members (g 0) 0
    c3 ← for_chats (λ e. e.chat_id) lost_member c2 n.rem_chat_members (g 1) 0
    c4 ← for_chats (λ e. e.chat_id) new_admin c3 n.chat_admins (g 2) 0
    c5 ← for_chats (λ e. e.chat_id) has_messages c4 n.chats_with_messages (g 3) 0
    c6 ← for_chats (λ e. e.chat_id) read_by_all c5 n.chats_read_times (g 4) 0
    pure (
      c6,
      length n.friend_request
          + length n.new_friends
          + length n.chat_admins
          + length n.chats_read_times,
    )

  -- The notifications once they have come.
  unfoldable pub keep_notifications :
      PsdImsClient
      → ReceivedNotifications
      → (requests friends : ℕ → Bool) → (g : ℕ → ℕ → RoundGrants) → Run W (PsdImsClient × ℕ)
  unfolding chat_loops
  keep_notifications c n requests friends g = do
    new_requests ← lift (add_requests c.requests n.friend_request requests 0)
    new_friends ← lift (add_new_friends c.friends n.new_friends friends 0)
    chat_loops
        (record c {
          last_notif_timestamp = n.last_timestamp;
          requests = new_requests;
          friends = new_friends;
        })
        n g

  -- The result is `total_notifications`, `none` for -1.
  unfoldable pub psd_recv_notifications :
      PsdImsClient
      → (arrays answer sync : Bool) (requests friends : ℕ → Bool) (g : ℕ → ℕ → RoundGrants)
      → Run W (PsdImsClient × Option ℕ)
  unfolding keep_notifications
  psd_recv_notifications c arrays answer sync requests friends g = do
    sent ← lift (synced c.chats arrays)
    received ← net_recv_notifications stubs c.network c.last_notif_timestamp sent answer sync
    elim received [
      | none ↦ pure (c, none)
      | some n ↦ do
        (after, total) ← keep_notifications c n requests friends g
        pure (after, some total)
    ]
