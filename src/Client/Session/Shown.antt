-- ===== src/Client/Session/Shown.antt =====
-- What is known of a chat of the client when another chat changes, or chats come in (client/chats.c and
-- client/psd_ims_client.c).
use psd_ims.Client.Session.Receive.{find_chat_id}
use psd_ims.Prelude.{
  length, WhenSome-next, WhenSome-map, WhenSome, Text, ℕ, suc, ◌≡◌, ◌∙◌, Bool, true, false, Option,
  none, some, List, [], ◌∷◌, arith, inl, inr, Option-cases, Bool-cases, if◌then◌else◌, ltb, set,
}
use psd_ims.Prelude.Int.{ℤ, pos, same_int, same_int_refl, same_int_sound}
use psd_ims.ItemList.{ItemList, list_add_item, list_find_item, list_find_node, list_new}
use psd_ims.ItemList.Find.{Status-cases}
use psd_ims.ItemList.Lookup.{
  IsMap, Keyed, list_add_item-ok_iff, list_find_item-find, list_find_item-list_add_item,
}
use psd_ims.Client.Friends.{FriendInfo, Friends}
use psd_ims.Client.Members.{members_new}
use psd_ims.Client.Messages.{mes_new}
use psd_ims.Client.Chats.{
  ChatInfo, Chats, add_members, cha_add_chat, cha_find_chat, write_chat, new_chat_info,
}
use psd_ims.ItemList.Ring.Life.{empty_list}
use psd_ims.Client.Common.{set_timestamp, ListInfo}
use psd_ims.Client.Chats.Hold.{cha_add_chat-ChatsHold, by_id, by_member, by_time, ChatsHold}
use psd_ims.Client.Network.{ReceivedChat, ReceivedChats}
use psd_ims.Client.Session.State.{PsdImsClient, max_members, max_messages}
use psd_ims.Client.Session.Receive.{find-set, find_node_of}
use psd_ims.Client.Session.Notifications.{
  names_of, Grants, change_chat, members_of, keep_chats, add_chats, add_received_chat,
}
use psd_ims.Client.Session.Holds.{add_received_chat-When, Holds, KeepsChat}

-- Whether a chat is known and passes a test.
abbrev pub shown : (ChatInfo → Bool) → ℤ → Chats → Bool
shown p id l = elim (cha_find_chat l id) [ none ↦ false | some chat ↦ p chat ]

abbrev pub known : ChatInfo → Bool
known chat = true

abbrev pub pending : ChatInfo → Bool
pending chat = ltb 0 chat.pending_messages

list_add_item-finds :
    {A V I : Type 0} (k : Keyed A V) (l : ItemList A V I) (x y : A) (granted : Bool) (v : V)
    → IsMap k l
    → list_find_item l v ≡ some y
    → list_find_item (list_add_item l (some x) granted).0 v ≡ some y
list_add_item-finds k l x y granted v m h =
    elim (Status-cases (list_add_item l (some x) granted).1) [
      | inl e ↦ ground (
        arith,
        h,
        list_find_item-list_add_item k l x granted v m e,
        (list_add_item-ok_iff k l x granted m).0 e,
        k.same_sound (k.key x) v,
      )
      | inr e ↦ unfold list_add_item in ground (arith, h, e)
    ]

written :
    (l : Chats) (id other : ℤ) (chat c : ChatInfo)
    → IsMap by_id l
    → cha_find_chat l id ≡ some chat
    → c.id ≡ id
    → cha_find_chat (write_chat l id c) other
      ≡ (if same_int id other then some c else cha_find_chat l other)
unfolding cha_find_chat write_chat
written l id other chat c m h e = elim (Option-cases (list_find_node l id)) [
  | inl n ↦ absurd (unfold list_find_node list_find_item in ground (arith, n, h, m.compares_key))
  | inr (i, n) ↦ ground (
    arith,
    n,
    list_find_item-find by_id l other m.compares_key,
    list_find_item-find by_id (record l { items = set l.items i c }) other m.compares_key,
    find-set l.items i id other c (find_node_of l id i m.compares_key n) e,
  )
]

-- A change keeps what is shown of every chat, if it keeps the test.
pub change_chat-shown :
    (p : ChatInfo → Bool) (c : PsdImsClient) (id other : ℤ) (f : ChatInfo → Option ChatInfo)
    → Holds c
    → KeepsChat f
    → ((chat : ChatInfo) → p chat ≡ true → WhenSome (λ d. p d ≡ true) (f chat))
    → shown p other c.chats ≡ true
    → WhenSome (λ d. shown p other d.chats ≡ true) (change_chat c id f)
change_chat-shown p c id other f h k g s = elim (Option-cases (cha_find_chat c.chats id)) [
  | inl e ↦ rw (e, change_chat) s
  | inr (chat, e) ↦ rw (e, change_chat) (go chat e (f chat) (k.id chat) (λ t. g chat t))
]
  where
    go :
        (chat : ChatInfo)
        → cha_find_chat c.chats id ≡ some chat
        → (o : Option ChatInfo) → WhenSome (λ d. d.id ≡ chat.id) o
        → (p chat ≡ true → WhenSome (λ d. p d ≡ true) o)
        → WhenSome
            (λ d. shown p other d.chats ≡ true)
            (elim o [
              | none ↦ none
              | some after ↦ some (record c { chats = write_chat c.chats id after })
            ])
    go chat e none i t = tt
    go chat e (some after) i t =
        let w =
          written c.chats id other chat after h.chats.map e
            (i ∙ find_chat_id c.chats id chat h.chats.map e) in
        elim (Bool-cases (same_int id other)) [
          | inr d ↦ ground (arith, w, d, s)
          | inl d ↦ ground (arith, w, d, s, e, same_int_sound id other, t)
        ]

-- A change of a chat that is known shows at once.
pub change_chat-shows :
    (p : ChatInfo → Bool) (c : PsdImsClient) (id : ℤ) (f : ChatInfo → Option ChatInfo)
    → Holds c
    → KeepsChat f
    → ((chat : ChatInfo) → WhenSome (λ d. p d ≡ true) (f chat))
    → shown known id c.chats ≡ true
    → WhenSome (λ d. shown p id d.chats ≡ true) (change_chat c id f)
change_chat-shows p c id f h k g s = elim (Option-cases (cha_find_chat c.chats id)) [
  | inl e ↦ absurd (ground (arith, e, s))
  | inr (chat, e) ↦ rw (e, change_chat) (go chat e (f chat) (k.id chat) (g chat))
]
  where
    go :
        (chat : ChatInfo)
        → cha_find_chat c.chats id ≡ some chat
        → (o : Option ChatInfo) → WhenSome (λ d. d.id ≡ chat.id) o
        → WhenSome (λ d. p d ≡ true) o
        → WhenSome
            (λ d. shown p id d.chats ≡ true)
            (elim o [
              | none ↦ none
              | some after ↦ some (record c { chats = write_chat c.chats id after })
            ])
    go chat e none i t = tt
    go chat e (some after) i t = ground (
      arith,
      written c.chats id id chat after h.chats.map e
          (i ∙ find_chat_id c.chats id chat h.chats.map e),
      same_int_refl id,
      t,
    )

cha_add_chat-finds :
    (l : Chats) (chat_id read all_read : ℤ) (description admin : Text)
    (names : List (Text × Option FriendInfo)) (granted : Bool) (id : ℤ) (chat : ChatInfo)
    → IsMap by_id l
    → cha_find_chat l id ≡ some chat
    → cha_find_chat
        (cha_add_chat l chat_id description admin names max_members max_messages read all_read
          granted).0
        id
      ≡ some chat
unfolding cha_find_chat cha_add_chat members_new mes_new list_new
cha_add_chat-finds l chat_id read all_read description admin names false id chat m h = h
cha_add_chat-finds l chat_id read all_read description admin names true id chat m h =
    let zero_info : ListInfo = record { timestamp = pos 0 } in
    let members = empty_list by_member zero_info max_members in
    let messages = empty_list by_time zero_info max_messages in
    elim (Status-cases (add_members members names true).1) [
      | inr e ↦ rw (e, cha_add_chat) h
      | inl e ↦
          rw (e, cha_add_chat)
            (list_add_item-finds by_id l
              (new_chat_info chat_id description admin (add_members members names true).0 messages
                read all_read)
              chat true id m h)
    ]

add_chats-finds :
    (friends : Friends) (l : Chats) (rs : List ReceivedChat) (g : Grants) (i : ℕ) (id : ℤ)
    (chat : ChatInfo)
    → ChatsHold l
    → cha_find_chat l id ≡ some chat
    → WhenSome (λ x. cha_find_chat x.0 id ≡ some chat) (add_chats friends l rs g i)
unfolding add_chats
add_chats-finds friends l [] g i id chat k h = h
add_chats-finds friends l (r ∷ rs) g i id chat k h = elim (Bool-cases (g.arrays i)) [
  | inr e ↦ rw (e, add_chats) h
  | inl e ↦
      rw (e, add_chats)
        (WhenSome-next (λ x. ChatsHold x.0 × (cha_find_chat x.0 id ≡ some chat))
          (λ x. cha_find_chat x.0 id ≡ some chat) (add_received_chat friends l r (g.blocks i))
          (λ x. add_chats friends x.0 rs g (suc i))
          (add_received_chat-When (λ x. ChatsHold x × (cha_find_chat x id ≡ some chat)) friends l r
            (g.blocks i) (k, h)
            (λ description admin.
              let names = members_of friends (names_of r.members).0 in
              (
                cha_add_chat-ChatsHold l r.chat_id description admin names max_members max_messages
                    r.read_timestamp r.all_read_timestamp (g.blocks i) k,
                cha_add_chat-finds l r.chat_id r.read_timestamp r.all_read_timestamp description
                    admin names (g.blocks i) id chat k.map h,
              )))
          (λ x q. add_chats-finds friends x.0 rs g (suc i) id chat q.0 q.1))
]

keep_chats-finds :
    (c : PsdImsClient) (answer : Option ReceivedChats) (g : Grants) (id : ℤ) (chat : ChatInfo)
    → Holds c
    → cha_find_chat c.chats id ≡ some chat
    → WhenSome (λ x. cha_find_chat x.0.chats id ≡ some chat) (keep_chats c answer g)
unfolding keep_chats
keep_chats-finds c none g id chat h e = e
keep_chats-finds c (some received) g id chat h e =
    go (add_chats c.friends c.chats received.chat_info g 0)
      (add_chats-finds c.friends c.chats received.chat_info g 0 id chat h.chats e)
  where
    go :
        (r : Option (Chats × Bool))
        → WhenSome (λ x. cha_find_chat x.0 id ≡ some chat) r
        → WhenSome {A = PsdImsClient × Option ℕ}
            (λ x. cha_find_chat x.0.chats id ≡ some chat)
            (elim r [
              | none ↦ none
              | some (l, false) ↦ some (record c { chats = l }, none)
              | some (l, true) ↦ some (
                record c { chats = set_timestamp l received.last_timestamp },
                some (length received.chat_info),
              )
            ])
    go none k = tt
    go (some (l, false)) k = k
    go (some (l, true)) k = unfold cha_find_chat list_find_item in k

pub keep_chats-shown :
    (p : ChatInfo → Bool) (c : PsdImsClient) (answer : Option ReceivedChats) (g : Grants) (id : ℤ)
    → Holds c
    → shown p id c.chats ≡ true
    → WhenSome (λ x. shown p id x.0.chats ≡ true) (keep_chats c answer g)
keep_chats-shown p c answer g id h s = elim (Option-cases (cha_find_chat c.chats id)) [
  | inl e ↦ absurd (ground (arith, e, s))
  | inr (chat, e) ↦
      WhenSome-map (λ x. cha_find_chat x.0.chats id ≡ some chat) (λ x. shown p id x.0.chats ≡ true)
        (keep_chats c answer g) (keep_chats-finds c answer g id chat h e)
        (λ x k. ground (arith, e, s, k))
]
