-- ===== src/Client/Chats/Window.antt =====
-- `cha_add_messages` of client/chats.c: the two cuts, and a whole batch.
use psd_ims.Prelude.{
  drop_all, map-drop, All-drop, drop-append, length-drop, lt→ltb, ◌∙◌, ℕ, zero, suc, ◌+◌, ◌-◌, ◌≤◌,
  ◌≡◌, refl, Bool, true, List, ◌++◌, map, arith, length, drop, is_some,
}
use native.Mathlib.Decide.{dec_le}
use psd_ims.ItemList.{Status, ok}
use psd_ims.ItemList.Bounds.{Distinct-drop, Distinct, list_delete_first-IsValid}
use psd_ims.ItemList.Delete.{list_delete_first-max_elems, list_delete_first-drop}
use psd_ims.Client.Messages.{MessageInfo, message_comp, mes_del_first_messages}
use psd_ims.Client.Chats.{ChatInfo, Incoming, add_messages, make_room, cha_add_messages}
use psd_ims.Client.Chats.Append.{
  entry, HasValidMessages, HaveTexts, count_later, add_messages-Appended,
}

-- The two cuts of `cha_add_messages`, seen from the whole sequence of old and new messages.
window-split :
    (gaps skip max : ℕ) (xs : List MessageInfo) (ms : List Incoming)
    → length xs ≤ max
    → skip ≡ length ms - max
    → gaps ≡ length ms - skip + length xs - max
    → drop gaps xs ++ map entry (drop skip ms)
      ≡ drop (length xs + length ms - max) (xs ++ map entry ms)
window-split gaps skip max xs ms h s g =
    rw (drop-append (length xs + length ms - max) xs (map entry ms), map-drop entry skip ms)
      (elim (dec_le (length ms) max) [
        | yes few ↦ rw (
          let e : gaps ≡ length xs + length ms - max = omega arith in e,
          let e : length xs + length ms - max - length xs ≡ 0 = omega arith in e,
          let e : skip ≡ 0 = omega arith in e,
        )
        | no many ↦ rw (
          drop_all gaps xs (omega arith),
          drop_all (length xs + length ms - max) xs (omega arith),
          let e : length xs + length ms - max - length xs ≡ skip = omega arith in e,
        )
      ])

make_room_fields :
    (c : ChatInfo) (gaps : ℕ)
    → HasValidMessages c
    → HasValidMessages (make_room c gaps)
      × ((make_room c gaps).messages.items ≡ drop gaps c.messages.items)
      × ((make_room c gaps).messages.max_elems ≡ c.messages.max_elems)
      × ((make_room c gaps).read_timestamp ≡ c.read_timestamp)
      × ((make_room c gaps).unread_messages ≡ c.unread_messages)
unfolding mes_del_first_messages
make_room_fields c zero v = (v, refl, refl, refl, refl)
make_room_fields c (suc n) v = rw (lt→ltb 0 (suc n) (omega arith)) (
  list_delete_first-IsValid message_comp c.messages (suc n) v,
  (list_delete_first-drop c.messages (suc n)).0,
  list_delete_first-max_elems c.messages (suc n),
  refl,
  refl,
)

-- The outcome of a batch that is taken in full.
pub record IsWindow (c : ChatInfo) (ms : List Incoming) (r : ChatInfo × Status) : Type 0 where
  pub returns_ok : r.1 ≡ ok
  pub last_kept :
      (r.0).messages.items
      ≡ drop
          (length c.messages.items + length ms - c.messages.max_elems)
          (c.messages.items ++ map entry ms)
  pub counted :
      (r.0).unread_messages
      ≡ c.unread_messages
        + count_later c.read_timestamp (drop (length ms - c.messages.max_elems) ms)

-- The call with its two cuts as variables.
add_messages-IsWindow :
    (c : ChatInfo) (ms : List Incoming) (granted : ℕ → Bool) (gaps skip : ℕ)
    → HasValidMessages c
    → HaveTexts ms
    → ((j : ℕ) → granted j ≡ true)
    → Distinct message_comp (c.messages.items ++ map entry ms)
    → skip ≡ length ms - c.messages.max_elems
    → gaps ≡ length ms - skip + length c.messages.items - c.messages.max_elems
    → IsWindow c ms (add_messages (make_room c gaps) skip (drop skip ms) granted)
add_messages-IsWindow c ms granted gaps skip v t g d s e =
    let f = make_room_fields c gaps v in
    let split = window-split gaps skip c.messages.max_elems c.messages.items ms v.bounded s e in
    let a =
      add_messages-Appended (make_room c gaps) skip (drop skip ms) granted f.0
        (rw (f.1, f.2, length-drop gaps c.messages.items, length-drop skip ms) (omega arith))
        (All-drop (λ m. is_some m.text ≡ true) skip ms t) g
        (rw (f.1, split) (Distinct-drop message_comp _ (c.messages.items ++ map entry ms) d)) in
    record {
      returns_ok = a.returns_ok;
      last_kept = a.appended ∙ rw f.1 split;
      counted = a.counted ∙ rw (f.3, f.4, s);
    }

-- In a chat with a valid list of messages: a batch of messages, each with a text and with a timestamp that no other message of the batch or of
-- the chat has, is taken in full where `malloc` grants every block: the call returns 0, the chat then
-- holds the last `max_elems` of the old and new messages, in order, and `unread_messages` has grown by
-- the number of those among the last `max_elems` new ones that are later than `read_timestamp`.
pub cha_add_messages-IsWindow :
    (c : ChatInfo) (ms : List Incoming) (granted : ℕ → Bool)
    → HasValidMessages c
    → HaveTexts ms
    → ((j : ℕ) → granted j ≡ true)
    → Distinct message_comp (c.messages.items ++ map entry ms)
    → IsWindow c ms (cha_add_messages c ms granted)
unfolding cha_add_messages
cha_add_messages-IsWindow c ms granted v t g d =
    add_messages-IsWindow c ms granted _ _ v t g d (ground arith) (rw v.counted refl)
