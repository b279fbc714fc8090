-- ===== src/Client/Chats/Append.antt =====
-- The loop of `cha_add_messages` of client/chats.c where the list has room for every message.
use mathlib.Core.List.{append_assoc, append-nil}
use psd_ims.Prelude.{
  ◌∙◌, ℕ, suc, ◌+◌, ◌≤◌, ◌<◌, ◌≡◌, refl, Bool, true, Option, none, some, List, [], ◌∷◌, ◌++◌, map,
  arith, length, All, Text, length-append, if◌then◌else◌, is_some,
}
use psd_ims.Prelude.Int.{ℤ, ltb_ℤ}
use psd_ims.ItemList.{Status, ok, list_add_item}
use psd_ims.ItemList.Bounds.{find_node-Distinct, Distinct-append_one, Distinct, IsValid}
use psd_ims.Client.Messages.{MessageInfo, Messages, message_info, message_comp, mes_add_message}
use psd_ims.Client.Chats.{ChatInfo, Incoming, count_unread, add_messages}

-- What an incoming message becomes in the list.
abbrev pub text_or_empty : Option Text → Text
text_or_empty none = []
text_or_empty (some t) = t

abbrev pub entry : Incoming → MessageInfo
entry m = message_info m.sender (text_or_empty m.text) m.send_timestamp m.attach_path

-- The messages of a chat form a valid list.
abbrev pub HasValidMessages : ChatInfo → Type 0
HasValidMessages c = IsValid message_comp c.messages

-- Every incoming message has a text.
abbrev pub HaveTexts : List Incoming → Type 0
HaveTexts = All (λ m. is_some m.text ≡ true)

-- How many of the messages are later than a time.
unfoldable pub count_later : ℤ → List Incoming → ℕ
count_later t [] = 0
count_later t (m ∷ ms) = (if ltb_ℤ t m.send_timestamp then 1 else 0) + count_later t ms

-- With room, memory and a text, a message whose timestamp is new goes to the end.
pub mes_add_message-append :
    (l : Messages) (m : Incoming) (rest : List MessageInfo) (granted : Bool)
    → IsValid message_comp l
    → length l.items < l.max_elems
    → is_some m.text ≡ true
    → granted ≡ true
    → Distinct message_comp (l.items ++ entry m ∷ rest)
    → mes_add_message l m.sender m.text m.send_timestamp m.attach_path granted
      ≡ (record l { items = l.items ++ entry m ∷ []; n_elems = l.n_elems + 1 }, ok)
unfolding mes_add_message list_add_item
mes_add_message-append l m rest granted v room t g d =
    ground (arith, v.compares, find_node-Distinct message_comp l.items (entry m) rest d)

-- What the loop does to a chat whose list has room for all that comes.
pub record Appended (c : ChatInfo) (ms : List Incoming) (r : ChatInfo × Status) : Type 0 where
  pub returns_ok : r.1 ≡ ok
  pub appended : (r.0).messages.items ≡ c.messages.items ++ map entry ms
  pub counted : (r.0).unread_messages ≡ c.unread_messages + count_later c.read_timestamp ms
  pub same_read : (r.0).read_timestamp ≡ c.read_timestamp

pub after_one : ChatInfo → Incoming → ChatInfo
after_one c m =
    count_unread
      (record c {
        messages = record c.messages {
          items = c.messages.items ++ entry m ∷ [];
          n_elems = c.messages.n_elems + 1;
        };
      })
      m.send_timestamp

pub after_one_fields :
    (c : ChatInfo) (m : Incoming)
    → ((after_one c m).messages.items ≡ c.messages.items ++ entry m ∷ [])
      × ((after_one c m).messages.max_elems ≡ c.messages.max_elems)
      × ((after_one c m).read_timestamp ≡ c.read_timestamp)
      × ((after_one c m).unread_messages
          ≡ c.unread_messages + (if ltb_ℤ c.read_timestamp m.send_timestamp then 1 else 0))
unfolding after_one
after_one_fields c m = ground arith

pub after_one-HasValidMessages :
    (c : ChatInfo) (m : Incoming) (rest : List MessageInfo)
    → HasValidMessages c
    → length c.messages.items < c.messages.max_elems
    → Distinct message_comp (c.messages.items ++ entry m ∷ rest)
    → HasValidMessages (after_one c m)
unfolding after_one
after_one-HasValidMessages c m rest v room d = ground (
  arith,
  length-append c.messages.items (entry m ∷ []),
  Distinct-append_one message_comp c.messages.items (entry m) v.distinct
      (find_node-Distinct message_comp c.messages.items (entry m) rest d),
)

pub add_messages-cons :
    (c : ChatInfo) (i : ℕ) (m : Incoming) (ms : List Incoming) (later : List MessageInfo)
    (granted : ℕ → Bool)
    → HasValidMessages c
    → length c.messages.items < c.messages.max_elems
    → is_some m.text ≡ true
    → granted i ≡ true
    → Distinct message_comp (c.messages.items ++ entry m ∷ later)
    → add_messages c i (m ∷ ms) granted ≡ add_messages (after_one c m) (suc i) ms granted
unfolding add_messages after_one
add_messages-cons c i m ms later granted v room t g d =
    ground (arith, mes_add_message-append c.messages m later (granted i) v room t g d)

pub add_messages-Appended :
    (c : ChatInfo) (i : ℕ) (ms : List Incoming) (granted : ℕ → Bool)
    → HasValidMessages c
    → length c.messages.items + length ms ≤ c.messages.max_elems
    → HaveTexts ms
    → ((j : ℕ) → granted j ≡ true)
    → Distinct message_comp (c.messages.items ++ map entry ms)
    → Appended c ms (add_messages c i ms granted)
unfolding add_messages count_later
add_messages-Appended c i [] granted v room t g d = record {
  returns_ok = refl;
  appended = ground (arith, append-nil c.messages.items);
  counted = omega arith;
  same_read = refl;
}
add_messages-Appended c i (m ∷ ms) granted v room t g d =
    let f = after_one_fields c m in
    let ih =
      add_messages-Appended (after_one c m) (suc i) ms granted
        (after_one-HasValidMessages c m (map entry ms) v (omega arith) d)
        (rw (f.0, f.1, length-append c.messages.items (entry m ∷ [])) (omega arith)) t.1 g
        (rw (f.0, append_assoc c.messages.items (entry m ∷ []) (map entry ms)) d) in
    rw (add_messages-cons c i m ms (map entry ms) granted v (omega arith) t.0 (g i) d) (record {
      returns_ok = ih.returns_ok;
      appended = ih.appended ∙ rw f.0 (append_assoc c.messages.items (entry m ∷ []) (map entry ms));
      counted = ih.counted ∙ rw (f.2, f.3) (omega arith);
      same_read = ih.same_read ∙ f.2;
    })
