-- ===== src/Client/Session/Receive.antt =====
-- What receiving messages does to a chat and to the other chats (client/psd_ims_client.c).
use mathlib.Core.Path.{subst}
use psd_ims.Prelude.{
  same_text, none, All, is_some, WhenSome, sym, inl, inr, Option-cases, ◌∙◌, ℕ, zero, suc, ◌+◌, ◌-◌,
  ◌≡◌, refl, Bool, true, false, Option, some, List, [], ◌∷◌, ◌++◌, map, length, drop, set, Text,
  arith, if◌then◌else◌,
}
use psd_ims.Prelude.Int.{ℤ, pos, same_int, same_int_refl, same_int_sound}
use psd_ims.ItemList.{find_node, list_find_node}
use psd_ims.ItemList.Find.{find}
use psd_ims.ItemList.Lookup.{IsMap, has_key, list_find_item-find}
use psd_ims.Client.Messages.{mes_add_message, MessageInfo}
use psd_ims.Client.Chats.{
  add_messages, count_unread, make_room, gaps_needed, skipped, ChatInfo, Chats, Incoming,
  cha_add_messages, cha_find_chat, write_chat,
}
use psd_ims.Client.Chats.Hold.{by_id}
use psd_ims.Client.Chats.Append.{entry}
use psd_ims.Client.Session.{
  written_back, all_incoming, keep_incoming, ReceivedMessage, ReceivedMessages, incoming,
  recv_messages, psd_recv_messages,
}

-- The arrays' entry for a message that has a user, and what becomes of it in the list.
abbrev pub sent : Text → ReceivedMessage → Incoming
sent own m = record {
  sender = elim m.user [ none ↦ none | some user ↦ if same_text user own then none else some user ];
  text = m.text;
  send_timestamp = m.send_date;
  attach_path = m.file_name;
}

abbrev pub kept : Text → ReceivedMessage → MessageInfo
kept own m = entry (sent own m)

-- Every message has a user and a text.
abbrev pub AllWhole : List ReceivedMessage → Type 0
AllWhole = All (λ m. (is_some m.user ≡ true) × (is_some m.text ≡ true))

-- A chat after its new messages have come in.
pub record Received (own : Text) (c : ChatInfo) (list : ReceivedMessages)
    (r : Option (ChatInfo × ℤ)) : Type 0 where
  pub after : ChatInfo
  pub returns_number : r ≡ some (after, pos (length list.messages))
  pub last_kept :
      after.messages.items
      ≡ drop
          (length c.messages.items + length list.messages - c.messages.max_elems)
          (c.messages.items ++ map (kept own) list.messages)
  pub nothing_pending : after.pending_messages ≡ 0
  pub timestamp_set : after.messages.list_info.timestamp ≡ list.last_timestamp

incoming_lem :
    (own : Text) (m : ReceivedMessage)
    → is_some m.user ≡ true
    → incoming (some own) m ≡ some (sent own m)
incoming_lem own m h = elim (Option-cases m.user) [
  | inl e ↦ absurd (ground (arith, h, e))
  | inr (user, e) ↦ rw (e, incoming, sent) refl
]

-- The four arrays, where `malloc` grants them.
pub all_incoming_lem :
    (own : Text) (ms : List ReceivedMessage)
    → AllWhole ms
    → all_incoming true (some own) ms ≡ some (map (sent own) ms)
unfolding all_incoming
all_incoming_lem own [] h = refl
all_incoming_lem own (m ∷ ms) h =
    ground (arith, incoming_lem own m h.0.0, all_incoming_lem own ms h.1)

pub find-set :
    (cs : List ChatInfo) (i : ℕ) (id other : ℤ) (c : ChatInfo)
    → find_node (λ x. same_int x.id id) cs ≡ some i
    → c.id ≡ id
    → find (λ x. same_int x.id other) (set cs i c)
      ≡ (if same_int id other then some c else find (λ x. same_int x.id other) cs)
unfolding find find_node
find-set [] i id other c h e = absurd (ground (arith, h))
find-set (x ∷ xs) zero id other c h e =
    ground (arith, h, e, same_int_sound x.id id, same_int_sound id other, same_int_refl id)
find-set (x ∷ xs) (suc i) id other c h e = ground (
  arith,
  h,
  e,
  find-set xs i id other c,
  same_int_sound x.id other,
  same_int_sound id other,
  same_int_sound x.id id,
)

add_messages_id :
    (c : ChatInfo) (i : ℕ) (ms : List Incoming) (granted : ℕ → Bool)
    → (add_messages c i ms granted).0.id ≡ c.id
unfolding add_messages
add_messages_id c i [] granted = refl
add_messages_id c i (m ∷ ms) granted =
    let after =
      (mes_add_message c.messages m.sender m.text m.send_timestamp m.attach_path (granted i)).0 in
    ground (
      arith,
      add_messages_id (count_unread (record c { messages = after }) m.send_timestamp) (suc i) ms
          granted,
    )

keep_incoming_id :
    (list : ReceivedMessages) (ms : List Incoming) (granted : ℕ → Bool) (c : ChatInfo)
    → (keep_incoming list ms granted c).0.id ≡ c.id
unfolding cha_add_messages
keep_incoming_id list ms granted c = ground (
  arith,
  add_messages_id (make_room c (gaps_needed c (length ms))) (skipped c (length ms))
      (drop (skipped c (length ms)) ms) granted,
)

-- `_recv_messages` keeps what holds of the chat and of all that `keep_incoming` makes of it.
pub recv_messages-When :
    (P : ChatInfo → Type 0) (user_name : Option Text)
    (net : (chat_id timestamp : ℤ) → Option ReceivedMessages) (arrays : Bool) (granted : ℕ → Bool)
    (c : ChatInfo)
    → P c
    → ((list : ReceivedMessages) (ms : List Incoming) → P (keep_incoming list ms granted c).0)
    → WhenSome (λ r. P r.0) (recv_messages user_name net arrays granted c)
unfolding recv_messages
recv_messages-When P user_name net arrays granted c h k =
    elim (Option-cases (net c.id c.messages.list_info.timestamp)) [
      | inl e ↦ rw (e, recv_messages) h
      | inr (list, e) ↦ elim (Option-cases (all_incoming arrays user_name list.messages)) [
        | inl n ↦ rw (e, n, recv_messages) tt
        | inr (ms, n) ↦ rw (e, n, recv_messages) (k list ms)
      ]
    ]

pub recv_messages_id :
    (user_name : Option Text) (net : (chat_id timestamp : ℤ) → Option ReceivedMessages)
    (arrays : Bool) (granted : ℕ → Bool) (c : ChatInfo)
    → WhenSome (λ r. r.0.id ≡ c.id) (recv_messages user_name net arrays granted c)
recv_messages_id user_name net arrays granted c =
    recv_messages-When (λ x. x.id ≡ c.id) user_name net arrays granted c refl
      (λ list ms. keep_incoming_id list ms granted c)

pub find_id :
    (cs : List ChatInfo) (id : ℤ) (c : ChatInfo)
    → find (λ x. same_int x.id id) cs ≡ some c
    → c.id ≡ id
unfolding find
find_id [] id c h = absurd (ground (arith, h))
find_id (x ∷ xs) id c h = ground (arith, h, same_int_sound x.id id, find_id xs id c)

pub find_chat_id :
    (l : Chats) (id : ℤ) (c : ChatInfo) → IsMap by_id l → cha_find_chat l id ≡ some c → c.id ≡ id
unfolding cha_find_chat
find_chat_id l id c m e =
    find_id l.items id c (sym (list_find_item-find by_id l id m.compares_key) ∙ e)

pub find_node_of :
    (l : Chats) (id : ℤ) (i : ℕ)
    → l.item_value_comp ≡ some (has_key by_id)
    → list_find_node l id ≡ some i
    → find_node (λ x. same_int x.id id) l.items ≡ some i
unfolding list_find_node
find_node_of l id i k n = ground (arith, k, n)

cha_find_chat-write_chat :
    (l : Chats) (id other : ℤ) (c : ChatInfo)
    → IsMap by_id l
    → c.id ≡ id
    → same_int id other ≡ false
    → cha_find_chat (write_chat l id c) other ≡ cha_find_chat l other
unfolding cha_find_chat write_chat
cha_find_chat-write_chat l id other c m e o = elim (Option-cases (list_find_node l id)) [
  | inl n ↦ ground (arith, n)
  | inr (i, n) ↦ ground (
    arith,
    n,
    o,
    list_find_item-find by_id l other m.compares_key,
    list_find_item-find by_id (record l { items = set l.items i c }) other m.compares_key,
    find-set l.items i id other c (find_node_of l id i m.compares_key n) e,
  )
]

written_back-others :
    (l : Chats) (id other : ℤ) (c : ChatInfo) (r : Option (ChatInfo × ℤ)) (after : Chats)
    (value : ℤ)
    → IsMap by_id l
    → c.id ≡ id
    → same_int id other ≡ false
    → WhenSome (λ x. x.0.id ≡ c.id) r
    → written_back l id r ≡ some (after, value)
    → cha_find_chat after other ≡ cha_find_chat l other
written_back-others l id other c none after value m e o k h = absurd (ground (arith, h))
written_back-others l id other c (some (x, v)) after value m e o k h =
    let q : write_chat l id x ≡ after = ground (arith, h) in
    subst (λ z. cha_find_chat z other ≡ cha_find_chat l other) q
      (cha_find_chat-write_chat l id other x m (k ∙ e) o)

-- Receiving the messages of one chat, where it returns at all, leaves every other chat of a valid list as it
-- is.
pub psd_recv_messages-others :
    (user_name : Option Text) (net : (chat_id timestamp : ℤ) → Option ReceivedMessages)
    (arrays : Bool) (granted : ℕ → Bool) (l after : Chats) (id other value : ℤ)
    → IsMap by_id l
    → same_int id other ≡ false
    → psd_recv_messages user_name net arrays granted l id ≡ some (after, value)
    → cha_find_chat after other ≡ cha_find_chat l other
unfolding psd_recv_messages
psd_recv_messages-others user_name net arrays granted l after id other value m o h =
    elim (Option-cases (cha_find_chat l id)) [
      | inl e ↦
          let q : l ≡ after = ground (arith, h, e) in
          subst (λ z. cha_find_chat z other ≡ cha_find_chat l other) q refl
      | inr (c, e) ↦
          written_back-others l id other c (recv_messages user_name net arrays granted c) after
            value m (find_chat_id l id c m e) o (recv_messages_id user_name net arrays granted c)
            (ground (arith, h, e))
    ]
