-- ===== src/Client/Chats/Single.antt =====
-- One message at a time: `cha_add_message` of client/chats.c, and the batch that fails half-way.
use mathlib.Core.List.{append-nil, append_assoc}
use mathlib.Core.Path.{subst}
use psd_ims.Prelude.{
  length-append, inr, leb→le, ap, ◌∙◌, inl, Bool-cases, ℕ, suc, ◌+◌, ◌-◌, ◌≤◌, ◌<◌, ◌≡◌, refl, Bool,
  true, none, List, [], ◌∷◌, ◌++◌, map, arith, length, drop, drop-append, length-drop,
  if◌then◌else◌, is_some,
}
use psd_ims.ItemList.{ok, failed, list_full, list_add_item}
use psd_ims.ItemList.Bounds.{Distinct, IsValid, Distinct-drop, list_delete_first-IsValid}
use psd_ims.ItemList.Delete.{list_delete_first-drop, list_delete_first-max_elems}
use psd_ims.Client.Messages.{
  MessageInfo, Messages, message_comp, mes_add_message, mes_del_first_messages,
  mes_del_last_messages,
}
use psd_ims.Client.Chats.{ChatInfo, Incoming, add_messages, cha_add_message}
use psd_ims.Client.Chats.Append.{
  add_messages-cons, after_one-HasValidMessages, after_one, after_one_fields, HaveTexts, entry,
  HasValidMessages, mes_add_message-append,
}

-- The list that `cha_add_message` adds to.
abbrev room_for_one : Messages → Messages
room_for_one l = if list_full l then mes_del_first_messages l 1 else l

room_for_one_fields :
    (l : Messages)
    → IsValid message_comp l
    → IsValid message_comp (room_for_one l)
      × ((room_for_one l).items ≡ drop (length l.items + 1 - l.max_elems) l.items)
      × ((room_for_one l).max_elems ≡ l.max_elems)
unfolding mes_del_first_messages
room_for_one_fields l v = elim (Bool-cases (list_full l)) [
  | inl e ↦ rw e (
    list_delete_first-IsValid message_comp l 1 v,
    (list_delete_first-drop l 1).0
        ∙ ap (λ n. drop n l.items)
            (let k : 1 ≡ length l.items + 1 - l.max_elems = omega (arith, leb→le _ _ e) in k),
    list_delete_first-max_elems l 1,
  )
  | inr e ↦ rw e (
    v,
    ap (λ n. drop n l.items)
        (let k : 0 ≡ length l.items + 1 - l.max_elems = ground (arith, e) in k),
    refl,
  )
]

Distinct-cut :
    (xs : List MessageInfo) (y : MessageInfo) (n : ℕ)
    → n - length xs ≡ 0
    → Distinct message_comp (xs ++ y ∷ [])
    → Distinct message_comp (drop n xs ++ y ∷ [])
Distinct-cut xs y n e d =
    subst (Distinct message_comp) (drop-append n xs (y ∷ []) ∙ rw e)
      (Distinct-drop message_comp n (xs ++ y ∷ []) d)

-- In a chat with a valid list of messages: a message with a text and a timestamp that the chat does not have is added, where the list can hold
-- a message and `malloc` grants the blocks: the chat then holds the last `max_elems` messages.
pub cha_add_message_window :
    (c : ChatInfo) (m : Incoming)
    → HasValidMessages c
    → 0 < c.messages.max_elems
    → is_some m.text ≡ true
    → Distinct message_comp (c.messages.items ++ entry m ∷ [])
    → ((cha_add_message c m true).1 ≡ ok)
      × ((cha_add_message c m true).0.messages.items
          ≡ drop
              (length c.messages.items + 1 - c.messages.max_elems)
              (c.messages.items ++ entry m ∷ []))
unfolding cha_add_message
cha_add_message_window c m v p t d =
    let f = room_for_one_fields c.messages v in
    let n = length c.messages.items + 1 - c.messages.max_elems in
    let cut = drop-append n c.messages.items (entry m ∷ []) in
    let few : n - length c.messages.items ≡ 0 = omega arith in
    let added =
      mes_add_message-append (room_for_one c.messages) m [] true f.0
        (rw (f.1, f.2, length-drop n c.messages.items) (omega arith)) t refl
        (rw (f.1) (Distinct-cut c.messages.items (entry m) n few d)) in
    ground (arith, added, f.1, cut, few)

-- What a refused message leaves behind in a valid list: a full list has already lost its oldest message.
pub cha_add_message_refused :
    (c : ChatInfo) (m : Incoming) (granted : Bool)
    → HasValidMessages c
    → (cha_add_message c m granted).1 ≡ failed
    → (cha_add_message c m granted).0.messages.items
      ≡ drop (length c.messages.items + 1 - c.messages.max_elems) c.messages.items
unfolding cha_add_message mes_add_message list_add_item
cha_add_message_refused c m granted v h = ground (arith, room_for_one_fields c.messages v)

-- In a chat with a valid list of messages that has room for the messages `ms`, which have texts and
-- new timestamps and get their blocks from `malloc`: a batch whose message `m`, behind `ms`, has no
-- text fails in the loop, and the messages of `ms` stay in the chat: nothing is taken back.
pub add_messages_keeps_prefix :
    (c : ChatInfo) (i : ℕ) (ms : List Incoming) (m : Incoming) (rest : List Incoming)
    (granted : ℕ → Bool)
    → HasValidMessages c
    → length c.messages.items + length ms ≤ c.messages.max_elems
    → HaveTexts ms
    → ((j : ℕ) → granted j ≡ true)
    → Distinct message_comp (c.messages.items ++ map entry ms)
    → m.text ≡ none
    → ((add_messages c i (ms ++ m ∷ rest) granted).1 ≡ failed)
      × ((add_messages c i (ms ++ m ∷ rest) granted).0.messages.items
          ≡ c.messages.items ++ map entry ms)
unfolding add_messages mes_add_message mes_del_last_messages
add_messages_keeps_prefix c i [] m rest granted v room t g d e =
    ground (arith, append-nil c.messages.items)
add_messages_keeps_prefix c i (x ∷ ms) m rest granted v room t g d e =
    let f = after_one_fields c x in
    let later = map entry ms in
    let ih =
      add_messages_keeps_prefix (after_one c x) (suc i) ms m rest granted
        (after_one-HasValidMessages c x later v (omega arith) d)
        (rw (f.0, f.1, length-append c.messages.items (entry x ∷ [])) (omega arith)) t.1 g
        (rw (f.0, append_assoc c.messages.items (entry x ∷ []) later) d) e in
    rw (add_messages-cons c i x (ms ++ m ∷ rest) later granted v (omega arith) t.0 (g i) d)
      (ih.0, ih.1 ∙ rw f.0 (append_assoc c.messages.items (entry x ∷ []) later))
