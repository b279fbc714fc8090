-- ===== src/Client/Session/Fetching.antt =====
-- client/psd_ims_client.c: the calls that fetch friends, messages and all data, over the network.
use psd_ims.Prelude.{
  ℕ, suc, Bool, true, false, Option, none, some, List, [], ◌∷◌, map, if◌then◌else◌, ltb,
}
use psd_ims.Prelude.Int.{ℤ, pos, ltb_ℤ}
use psd_ims.ItemList.{Status, ok, failed}
use psd_ims.Client.Common.{set_timestamp}
use psd_ims.Client.Friends.{Friends}
use psd_ims.Client.Chats.{ChatInfo, Chats, cha_find_chat, write_chat}
use psd_ims.Client.Network.{
  ReceivedData, ReceivedChat, Run, Stubs, ◌>>=◌, pure, lift, ReceivedChats,
}
use psd_ims.Client.Network.Calls.{net_get_friend_list, net_recv_all_data, net_recv_pending_messages}
use psd_ims.Client.Network.Sound.{text_at}
use psd_ims.Client.Session.{minus_one, psd_recv_friends, recv_messages}
use psd_ims.Client.Session.State.{PsdImsClient}
use psd_ims.Client.Session.Notifications.{Grants, add_new_friends, add_requests, add_received_chat}

-- What `malloc` grants to one call of `_recv_messages`: the answer, the four temporary arrays, and the blocks
-- of each message.
pub record MessageGrants : Type 0 where
  pub answer : Bool
  pub arrays : Bool
  pub messages : ℕ → Bool

-- The client with the chat that `_recv_messages` has written to, and its value.
abbrev pub keep_messages : PsdImsClient → ℤ → Option (ChatInfo × ℤ) → Option (PsdImsClient × ℤ)
keep_messages c id none = none
keep_messages c id (some (after, value)) =
    some (record c { chats = write_chat c.chats id after }, value)

module _ {W : Type 0} (stubs : Stubs W) where
  -- `_recv_messages` on a chat of the client; `strcmp` reads the user's name once for each message.
  unfoldable pub fetch_messages : PsdImsClient → ChatInfo → MessageGrants → Run W (PsdImsClient × ℤ)
  fetch_messages c chat g = do
    answer ←
        net_recv_pending_messages stubs c.network chat.id chat.messages.list_info.timestamp g.answer
    lift (
        keep_messages c chat.id
          (recv_messages (text_at c.user_name) (λ id timestamp. answer) g.arrays g.messages chat))

  -- `psd_recv_messages`
  unfoldable pub fetch_chat :
      PsdImsClient → (chat_id : ℤ) → MessageGrants → Run W (PsdImsClient × ℤ)
  unfolding fetch_messages
  fetch_chat c chat_id g = elim (cha_find_chat c.chats chat_id) [
    | none ↦ pure (c, minus_one)
    | some chat ↦ fetch_messages c chat g
  ]

  -- `psd_recv_pending_messages`
  unfoldable pub fetch_pending :
      PsdImsClient → (chat_id : ℤ) → MessageGrants → Run W (PsdImsClient × ℤ)
  unfolding fetch_messages
  fetch_pending c chat_id g = elim (cha_find_chat c.chats chat_id) [
    | none ↦ pure (c, minus_one)
    | some chat ↦ elim (ltb 0 chat.pending_messages) [
      | false ↦ pure (c, pos 0)
      | true ↦ fetch_messages c chat g
    ]
  ]

  -- The loop of `psd_recv_all_messages`, and with `only_pending` that of `psd_recv_all_pending_messages`, over
  -- the chats that it comes to, given by their ids. Its value is that of the last chat that failed, or 0.
  unfoldable pub fetch_each :
      (only_pending : Bool)
      → PsdImsClient
      → List ℤ
      → (ℕ → MessageGrants)
      → ℕ
      → (value : ℤ) → Run W (PsdImsClient × ℤ)
  unfolding fetch_messages
  fetch_each only_pending c [] g i value w = some ((c, value), w)
  fetch_each only_pending c (id ∷ ids) g i value w = elim (round c id) [
    | none ↦ none
    | some ((after, n), w2) ↦
        fetch_each only_pending after ids g (suc i) (if ltb_ℤ n (pos 0) then n else value) w2
  ]
    where
      round : PsdImsClient → ℤ → Option ((PsdImsClient × ℤ) × W)
      round c id = if only_pending then fetch_pending c id (g i) w else fetch_chat c id (g i) w

  unfoldable pub psd_recv_all_messages :
      PsdImsClient → (ℕ → MessageGrants) → Run W (PsdImsClient × ℤ)
  unfolding fetch_each
  psd_recv_all_messages c g = fetch_each false c (map (λ chat. chat.id) c.chats.items) g 0 (pos 0)

  unfoldable pub psd_recv_all_pending_messages :
      PsdImsClient → (ℕ → MessageGrants) → Run W (PsdImsClient × ℤ)
  unfolding fetch_each
  psd_recv_all_pending_messages c g =
      fetch_each true c (map (λ chat. chat.id) c.chats.items) g 0 (pos 0)

  -- `psd_recv_friends`
  unfoldable pub fetch_friends :
      PsdImsClient → (answer : Bool) (granted : ℕ → Bool) → Run W (PsdImsClient × ℤ)
  fetch_friends c answer granted = do
    received ← net_get_friend_list stubs c.network c.friends.list_info.timestamp answer
    (friends, value) ← lift (psd_recv_friends (λ timestamp. received) granted c.friends)
    pure (record c { friends = friends }, value)

-- The loop of `psd_recv_all_data` over the chats, and whether it got through. Where a chat cannot be added
-- the list that the loop runs over is freed, and then read: a fault.
unfoldable pub add_all_chats :
    Friends → Chats → List ReceivedChat → Grants → ℕ → Option (Chats × Bool)
add_all_chats friends l [] g i = some (l, true)
add_all_chats friends l (r ∷ rs) g i = elim (g.arrays i) [
  | false ↦ some (l, false)
  | true ↦ elim (add_received_chat friends l r (g.blocks i)) [
    | none ↦ none
    | some (after, failed) ↦ none
    | some (after, ok) ↦ add_all_chats friends after rs g (suc i)
  ]
]

-- What `psd_recv_all_data` does with the chats of the answer, once the requests and the friends are in.
abbrev pub keep_chat_data :
    PsdImsClient → ReceivedChats → Option (Chats × Bool) → Option (PsdImsClient × Status)
keep_chat_data c received none = none
keep_chat_data c received (some (chats, false)) = some (record c { chats = chats }, failed)
keep_chat_data c received (some (chats, true)) =
    some (record c { chats = set_timestamp chats received.last_timestamp }, ok)

-- What `psd_recv_all_data` does with the answer.
unfoldable pub keep_all_data :
    PsdImsClient
    → ReceivedData
    → (requests friends : ℕ → Bool) → Grants
    → Option (PsdImsClient × Status)
unfolding add_all_chats
keep_all_data c received requests friends g =
    elim (add_requests c.requests received.friend_requests requests 0) [
      | none ↦ none
      | some new_requests ↦ elim (add_new_friends c.friends received.friends friends 0) [
        | none ↦ none
        | some new_friends ↦
            keep_chat_data
              (record c {
                last_notif_timestamp = received.timestamp;
                requests = set_timestamp new_requests received.timestamp;
                friends = set_timestamp new_friends received.timestamp;
              })
              received.chats
              (add_all_chats (set_timestamp new_friends received.timestamp) c.chats
                received.chats.chat_info g 0)
      ]
    ]

module _ {W : Type 0} (stubs : Stubs W) where
  unfoldable pub psd_recv_all_data :
      PsdImsClient → (requests friends : ℕ → Bool) → Grants → Run W (PsdImsClient × Status)
  unfolding keep_all_data
  psd_recv_all_data c requests friends g = do
    answer ← net_recv_all_data stubs c.network g.answer
    elim answer [
      | none ↦ pure (c, failed)
      | some client_data ↦ lift (keep_all_data c client_data requests friends g)
    ]
