-- ===== src/Client/Chats/Kept.antt =====
-- What client/chats.c keeps of a chat when messages come in, whether all of them fit or not.
use psd_ims.Prelude.{
  ℕ, suc, Bool, true, false, Option, none, some, List, [], ◌∷◌, Text, inl, inr, Bool-cases, length,
  drop, ltb,
}
use psd_ims.Prelude.Int.{ℤ, ltb_ℤ}
use psd_ims.ItemList.Find.{Status-cases}
use psd_ims.ItemList.Lookup.{IsMap, list_add_item-IsMap}
use psd_ims.ItemList.Ring.Runs.{delete_first, call, call-IsMap}
use psd_ims.Client.Messages.{
  Messages, mes_add_message, mes_del_first_messages, mes_del_last_messages, message_info,
}
use psd_ims.Client.Chats.{
  ChatInfo, Incoming, add_messages, cha_add_messages, count_unread, gaps_needed, make_room, skipped,
}
use psd_ims.Client.Chats.Hold.{ChatHolds, by_time}

mes_add_message-IsMap :
    (l : Messages) (sender text : Option Text) (t : ℤ) (attach_path : Option Text) (granted : Bool)
    → IsMap by_time l
    → IsMap by_time (mes_add_message l sender text t attach_path granted).0
unfolding mes_add_message
mes_add_message-IsMap l sender none t attach_path granted m = m
mes_add_message-IsMap l sender (some text) t attach_path false m = m
mes_add_message-IsMap l sender (some text) t attach_path true m =
    list_add_item-IsMap by_time l (some (message_info sender text t attach_path)) true m

mes_del_first_messages-IsMap :
    (l : Messages) (n : ℕ) → IsMap by_time l → IsMap by_time (mes_del_first_messages l n)
unfolding mes_del_first_messages call
mes_del_first_messages-IsMap l n m = call-IsMap by_time (delete_first n) l m

with_messages :
    (c : ChatInfo) (l : Messages)
    → ChatHolds c
    → IsMap by_time l
    → ChatHolds (record c { messages = l })
with_messages c l h m = record { members = h.members; messages = m }

count_unread-ChatHolds : (c : ChatInfo) (t : ℤ) → ChatHolds c → ChatHolds (count_unread c t)
count_unread-ChatHolds c t h = elim (Bool-cases (ltb_ℤ c.read_timestamp t)) [
  | inl e ↦ rw e (record { members = h.members; messages = h.messages })
  | inr e ↦ rw e h
]

make_room-ChatHolds : (c : ChatInfo) (gaps : ℕ) → ChatHolds c → ChatHolds (make_room c gaps)
make_room-ChatHolds c gaps h = elim (Bool-cases (ltb 0 gaps)) [
  | inl e ↦ rw e (with_messages c _ h (mes_del_first_messages-IsMap c.messages gaps h.messages))
  | inr e ↦ rw e h
]

add_messages-ChatHolds :
    (c : ChatInfo) (i : ℕ) (ms : List Incoming) (granted : ℕ → Bool)
    → ChatHolds c
    → ChatHolds (add_messages c i ms granted).0
unfolding add_messages mes_del_last_messages
add_messages-ChatHolds c i [] granted h = h
add_messages-ChatHolds c i (m ∷ ms) granted h =
    let r = mes_add_message c.messages m.sender m.text m.send_timestamp m.attach_path (granted i) in
    let one = with_messages c r.0 h (
      mes_add_message-IsMap c.messages m.sender m.text m.send_timestamp m.attach_path (granted i)
        h.messages) in
    elim (Status-cases r.1) [
      | inl e ↦
          rw (e, add_messages)
            (add_messages-ChatHolds (count_unread (record c { messages = r.0 }) m.send_timestamp)
              (suc i) ms granted
              (count_unread-ChatHolds (record c { messages = r.0 }) m.send_timestamp one))
      | inr e ↦ rw (e, add_messages) one
    ]

pub cha_add_messages-ChatHolds :
    (c : ChatInfo) (incoming : List Incoming) (granted : ℕ → Bool)
    → ChatHolds c
    → ChatHolds (cha_add_messages c incoming granted).0
unfolding cha_add_messages
cha_add_messages-ChatHolds c incoming granted h =
    add_messages-ChatHolds (make_room c (gaps_needed c (length incoming)))
      (skipped c (length incoming)) (drop (skipped c (length incoming)) incoming) granted
      (make_room-ChatHolds c (gaps_needed c (length incoming)) h)
