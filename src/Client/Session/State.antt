-- ===== src/Client/Session/State.antt =====
-- client/psd_ims_client.c: the client itself, and its account at the server.
use psd_ims.Prelude.{ℕ, Bool, Option, none, some, Text, if◌then◌else◌}
use psd_ims.Prelude.Int.{ℤ, pos}
use psd_ims.ItemList.{Status, ok, failed}
use psd_ims.Client.Friends.{Friends, fri_new}
use psd_ims.Client.Session.{ReceivedUser}
use psd_ims.Client.Requests.{FriendRequests, req_new}
use psd_ims.Client.Chats.{Chats, cha_new}
use psd_ims.Client.Network.{
  Network, Pointer, null, wild, blank, points, Run, ◌>>=◌, pure, lift, free, Stubs, net_new,
  net_free, net_bind_network, net_login, net_logout,
}
use psd_ims.Client.Network.Calls.{net_user_register, net_user_unregister}

-- `struct psd_ims_client`, without its mutexes.
pub record PsdImsClient : Type 0 where
  pub user_name : Pointer
  pub user_pass : Pointer
  pub user_info : Pointer
  pub last_connection : ℤ
  pub last_notif_timestamp : ℤ
  pub network : Network
  pub friends : Friends
  pub requests : FriendRequests
  pub chats : Chats

-- The bounds of psd_ims_client.h.
abbrev pub max_friends : ℕ
max_friends = 50

abbrev pub max_friend_requests : ℕ
max_friend_requests = 50

abbrev pub max_chats : ℕ
max_chats = 50

abbrev pub max_messages : ℕ
max_messages = 50

abbrev pub max_members : ℕ
max_members = 50

-- The three lists, made anew. Where `malloc` refuses one the C function goes on with a NULL pointer, which
-- the next use of the list dereferences; here that fault, `none`, comes at once.
abbrev pub new_lists :
    (granted1 granted2 granted3 : Bool) → Option (Friends × FriendRequests × Chats)
new_lists granted1 granted2 granted3 = elim (fri_new max_friends granted1) [
  | none ↦ none
  | some friends ↦ elim (req_new max_friend_requests granted2) [
    | none ↦ none
    | some requests ↦ elim (cha_new max_chats granted3) [
      | none ↦ none
      | some chats ↦ some (friends, requests, chats)
    ]
  ]
]

-- The client around its lists. `user_info` is not set.
abbrev pub new_client :
    Option (Friends × FriendRequests × Chats)
    → (granted_network granted : Bool) → Option PsdImsClient
new_client none granted_network granted = none
new_client (some (friends, requests, chats)) granted_network granted =
    elim (net_new granted_network) [
      | none ↦ none
      | some network ↦
          if granted
          then some (record {
            user_name = null;
            user_pass = null;
            user_info = wild;
            last_connection = pos 0;
            last_notif_timestamp = pos 0;
            network = network;
            friends = friends;
            requests = requests;
            chats = chats;
          })
          else none
    ]

unfoldable pub psd_new_client : (granted : ℕ → Bool) → Option PsdImsClient
psd_new_client granted =
    new_client (new_lists (granted 0) (granted 1) (granted 2)) (granted 3) (granted 4)

unfoldable pub psd_set_name : PsdImsClient → Text → (granted : Bool) → PsdImsClient × Status
psd_set_name c name granted =
    if granted then (record c { user_name = points name }, ok) else (c, failed)

unfoldable pub psd_set_pass : PsdImsClient → Text → (granted : Bool) → PsdImsClient × Status
psd_set_pass c pass granted =
    if granted then (record c { user_pass = points pass }, ok) else (c, failed)

unfoldable pub psd_bind_network : PsdImsClient → Text → (granted : Bool) → PsdImsClient × Status
psd_bind_network c server_url granted =
    let (network, status) = net_bind_network c.network server_url granted in
    (record c { network = network }, status)

-- What `psd_login` does with the answer of `net_login`; information that is NULL is a fault when its length
-- is taken. A block that is granted is not filled in before all three are.
unfoldable pub keep_login :
    PsdImsClient
    → (name password : Text) → (granted : ℕ → Bool) → Option ReceivedUser
    → Option (PsdImsClient × Status)
keep_login c name password granted none = some (c, failed)
keep_login c name password granted (some user) =
    if granted 0
    then if granted 1
      then elim user.information [
        | none ↦ none
        | some information ↦ some (
            if granted 2
            then (
              record c {
                user_name = points name;
                user_pass = points password;
                user_info = points information;
              },
              ok,
            )
            else (record c { user_name = blank; user_pass = blank; user_info = null }, failed))
      ]
      else some (record c { user_name = blank; user_pass = null }, failed)
    else some (record c { user_name = null }, failed)

-- 0 or -1 for the answer of a call.
abbrev pub of_answer : {A : Type 0} → Option A → Status
of_answer none = failed
of_answer (some x) = ok

module _ {W : Type 0} where
  unfoldable pub psd_login :
      Stubs W
      → PsdImsClient
      → (name password : Text) → (net_granted granted : ℕ → Bool) → Run W (PsdImsClient × Status)
  psd_login stubs c name password net_granted granted = do
    (network, user) ← net_login stubs c.network name password net_granted
    lift (keep_login (record c { network = network }) name password granted user)

  unfoldable pub psd_logout : PsdImsClient → (granted : ℕ → Bool) → Run W PsdImsClient
  psd_logout c granted = do
    network ← net_logout c.network
    n ← free c.user_name
    p ← free c.user_pass
    i ← free c.user_info
    λ w. elim (new_lists (granted 0) (granted 1) (granted 2)) [
      | none ↦ none
      | some (friends, requests, chats) ↦ some (
        record {
          user_name = null;
          user_pass = null;
          user_info = null;
          last_connection = pos 0;
          last_notif_timestamp = pos 0;
          network = network;
          friends = friends;
          requests = requests;
          chats = chats;
        },
        w,
      )
    ]

  -- The lists go too, and the block itself; `user_info` stays.
  unfoldable pub psd_free_client : PsdImsClient → Run W (Unit {0})
  psd_free_client c = do u ← net_free c.network; n ← free c.user_name; free c.user_pass

  unfoldable pub psd_user_register :
      Stubs W → PsdImsClient → (name password information : Text) → Run W Status
  psd_user_register stubs c name password information = do
    answer ← net_user_register stubs c.network name password information
    pure (of_answer answer)

  unfoldable pub psd_user_unregister :
      Stubs W → PsdImsClient → (name password : Text) → Run W Status
  psd_user_unregister stubs c name password = do
    answer ← net_user_unregister stubs c.network name password
    pure (of_answer answer)
