-- ===== src/Client/Messages.antt =====
-- client/messages.c and messages.h: the messages of a chat, told apart by their timestamps.
use psd_ims.Prelude.{ℕ, Bool, true, Option, none, some, Text, if◌then◌else◌, is_some}
use psd_ims.Prelude.Int.{ℤ, pos, same_int}
use psd_ims.ItemList.{
  ItemList, Status, failed, list_new, list_add_item, list_find_item, list_delete_first,
}
use psd_ims.Client.Common.{ListInfo, set_comparators}

-- `sender` and `attach_path` are `none` for NULL.
pub record MessageInfo : Type 0 where
  pub sender : Option Text
  pub text : Text
  pub timestamp : ℤ
  pub has_attach : Bool
  pub attach_path : Option Text

abbrev pub Messages : Type 0
Messages = ItemList MessageInfo ℤ ListInfo

-- `a - b == 0`
abbrev pub message_timestamp_comp : MessageInfo → ℤ → Bool
message_timestamp_comp m timestamp = same_int m.timestamp timestamp

abbrev pub message_comp : MessageInfo → MessageInfo → Bool
message_comp m n = same_int m.timestamp n.timestamp

unfoldable pub mes_new : ℕ → (granted : Bool) → Option Messages
mes_new max granted =
    set_comparators (list_new (record { timestamp = pos 0 }) max true true granted)
      message_timestamp_comp message_comp

-- The block that `mes_add_message` fills in.
abbrev pub message_info : Option Text → Text → ℤ → Option Text → MessageInfo
message_info sender text send_timestamp attach_path = record {
  sender = sender;
  text = text;
  timestamp = send_timestamp;
  has_attach = is_some attach_path;
  attach_path = attach_path;
}

unfoldable pub mes_add_message :
    Messages → Option Text → Option Text → ℤ → Option Text → (granted : Bool) → Messages × Status
mes_add_message l sender none send_timestamp attach_path granted = (l, failed)
mes_add_message l sender (some text) send_timestamp attach_path granted =
    if granted
    then list_add_item l (some (message_info sender text send_timestamp attach_path)) granted
    else (l, failed)

unfoldable pub mes_del_first_messages : Messages → ℕ → Messages
mes_del_first_messages l n_messages = list_delete_first l n_messages

-- The body of the C function is empty.
unfoldable pub mes_del_last_messages : Messages → ℕ → Messages
mes_del_last_messages l n_messages = l

unfoldable pub mes_find_message : Messages → ℤ → Option MessageInfo
mes_find_message l send_timestamp = list_find_item l send_timestamp
