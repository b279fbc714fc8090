-- ===== src/Client/Session/Sending.antt =====
-- client/psd_ims_client.c: the calls by which the user acts on friends and chats.
use psd_ims.Prelude.{Bool, true, false, Option, none, some, Text}
use psd_ims.Prelude.Int.{ℤ}
use psd_ims.ItemList.{Status, failed}
use psd_ims.Client.Friends.{fri_find_friend}
use psd_ims.Client.Requests.{req_del_request}
use psd_ims.Client.Chats.{cha_find_chat, cha_del_chat}
use psd_ims.Client.Network.{Run, ◌>>=◌, pure, Stubs}
use psd_ims.Client.Network.Calls.{
  net_create_chat, net_add_user_to_chat, net_remove_user_from_chat, net_quit_from_chat,
  net_send_friend_request, net_send_request_accept, net_send_request_decline,
}
use psd_ims.Client.Session.State.{PsdImsClient, of_answer}

module _ {W : Type 0} (stubs : Stubs W) (c : PsdImsClient) where
  -- The result is the id of the new chat; -1 is `none`.
  unfoldable pub psd_create_chat : Text → (member : Option Text) → Run W (Option ℤ)
  psd_create_chat description none = net_create_chat stubs c.network description none
  psd_create_chat description (some member) = elim (fri_find_friend c.friends member) [
    | none ↦ pure none
    | some friend ↦ net_create_chat stubs c.network description (some member)
  ]

  unfoldable pub psd_add_member_to_chat : Text → (chat_id : ℤ) → Run W Status
  psd_add_member_to_chat member chat_id = do
    answer ← net_add_user_to_chat stubs c.network member chat_id
    pure (of_answer answer)

  unfoldable pub psd_del_member_from_chat : Text → (chat_id : ℤ) → Run W Status
  psd_del_member_from_chat member chat_id = do
    answer ← net_remove_user_from_chat stubs c.network member chat_id
    pure (of_answer answer)

  unfoldable pub psd_quit_from_chat : (chat_id : ℤ) → Run W Status
  psd_quit_from_chat chat_id = do
    answer ← net_quit_from_chat stubs c.network chat_id
    pure (of_answer answer)

  unfoldable pub psd_send_friend_request : Text → Run W Status
  psd_send_friend_request user = do
    answer ← net_send_friend_request stubs c.network user
    pure (of_answer answer)

  -- The deletion of a request that the server has taken.
  abbrev pub forget_request : Text → Option ℤ → PsdImsClient × Status
  forget_request user none = (c, failed)
  forget_request user (some send_date) =
      let (requests, status) = req_del_request c.requests user in
      (record c { requests = requests }, status)

  unfoldable pub psd_send_request_accept : Text → Run W (PsdImsClient × Status)
  psd_send_request_accept user = do
    answer ← net_send_request_accept stubs c.network user
    pure (forget_request user answer)

  unfoldable pub psd_send_request_decline : Text → Run W (PsdImsClient × Status)
  psd_send_request_decline user = do
    answer ← net_send_request_decline stubs c.network user
    pure (forget_request user answer)

unfoldable pub psd_remove_chat : PsdImsClient → (chat_id : ℤ) → PsdImsClient × Status
psd_remove_chat c chat_id =
    let (chats, status) = cha_del_chat c.chats chat_id in (record c { chats = chats }, status)

unfoldable pub psd_chat_exists : PsdImsClient → (chat_id : ℤ) → Bool
psd_chat_exists c chat_id = elim (cha_find_chat c.chats chat_id) [ none ↦ false | some chat ↦ true ]
