-- ===== src/Server/Persistence/Friendship.antt =====
-- server/persistence.c: friendships and friend requests.
use psd_ims.Prelude.{◌+◌, ◌*◌, [], ◌∷◌, length, leb, Text, codes}
use psd_ims.Prelude.Int.{ℤ, pos}
use psd_ims.Server.Run.{
  M, pure, ◌>>=◌, ◌>>◌, return_if, return_if_null, minus_one, sprintf_int, send, has_rows,
}

abbrev pub delete_request : Text
delete_request = codes "DELETE FROM friends_request where (ID1 ="

unfoldable pub decline_friend_request : (user_id1 user_id2 : ℤ) → M ℤ
decline_friend_request user_id1 user_id2 = return_if_null minus_one do
  str_id1 ← sprintf_int 10 user_id1
  str_id2 ← sprintf_int 10 user_id2
  return_if (leb 170 (length str_id1 + length str_id2 + length delete_request)) minus_one (
      send 200 delete_request (str_id1 ∷ codes " AND ID2_request = " ∷ str_id2 ∷ codes ");" ∷ [])
        minus_one (λ rows id. pure (pos 0)))

abbrev pub insert_friends : Text
insert_friends = codes "INSERT INTO friends(ID1, ID2, CREATION_TIME) VALUES("

-- The code that `decline_friend_request` returns is dropped.
unfoldable pub accept_friend_request : (user_id1 user_id2 timestamp : ℤ) → M ℤ
unfolding decline_friend_request
accept_friend_request user_id1 user_id2 timestamp = return_if_null minus_one do
  str_id1 ← sprintf_int 10 user_id1
  str_id2 ← sprintf_int 10 user_id2
  str_time ← sprintf_int 10 timestamp
  return_if (leb 190 (length str_id1 + length str_id2 + length insert_friends)) minus_one (
      send 200 insert_friends
        (str_id1 ∷ codes "," ∷ str_id2 ∷ codes "," ∷ str_time ∷ codes ");" ∷ []) minus_one
        (λ rows id. do decline_friend_request user_id1 user_id2; pure (pos 0)))

abbrev pub insert_request : Text
insert_request = codes "INSERT INTO friends_request(ID1,ID2_request,CREATION_TIME) VALUES("

unfoldable pub send_request : (user_id1 user_id2 timestamp : ℤ) → M ℤ
send_request user_id1 user_id2 timestamp = return_if_null minus_one do
  str_id1 ← sprintf_int 10 user_id1
  str_id2 ← sprintf_int 10 user_id2
  str_time ← sprintf_int 10 timestamp
  return_if (leb 190 (length str_id1 + length str_id2 + length str_time + length insert_request))
      minus_one
      (send 200 insert_request
        (str_id1 ∷ codes "," ∷ str_id2 ∷ codes "," ∷ str_time ∷ codes ");" ∷ []) minus_one
        (λ rows id. pure (pos 0)))

abbrev pub select_request : Text
select_request = codes "SELECT * FROM friends_request where (ID1 = "

unfoldable pub exist_request : (user_id1 user_id2 : ℤ) → M ℤ
exist_request user_id1 user_id2 = do
  str_id1 ← sprintf_int 20 user_id1
  str_id2 ← sprintf_int 20 user_id2
  return_if_null minus_one (
      return_if (leb 150 (length select_request + length str_id1 + length str_id2)) minus_one (
        send 200 select_request (str_id1 ∷ codes " AND ID2_request = " ∷ str_id2 ∷ codes ");" ∷ [])
          minus_one (λ rows id. pure (has_rows rows))))

abbrev pub select_friends : Text
select_friends = codes "SELECT * FROM friends where ((ID1 = "

unfoldable pub exist_friendly : (user_id1 user_id2 : ℤ) → M ℤ
exist_friendly user_id1 user_id2 = do
  str_id1 ← sprintf_int 20 user_id1
  str_id2 ← sprintf_int 20 user_id2
  return_if_null minus_one (
      return_if (leb 150 (length select_friends + length str_id1 * 2 + length str_id2 * 2))
        minus_one
        (send 200 select_friends
          (str_id1
            ∷ codes " AND ID2 = "
            ∷ str_id2
            ∷ codes ") OR "
            ∷ codes "( ID1 = "
            ∷ str_id2
            ∷ codes " AND ID2 = "
            ∷ str_id1
            ∷ codes "));"
            ∷ [])
          minus_one (λ rows id. pure (has_rows rows))))

abbrev pub delete_friends : Text
delete_friends = codes "DELETE FROM friends where (ID1 ="

unfoldable pub del_friends : (user_id1 user_id2 : ℤ) → M ℤ
del_friends user_id1 user_id2 = do
  str_id1 ← sprintf_int 10 user_id1
  str_id2 ← sprintf_int 10 user_id2
  return_if_null minus_one (
      return_if (leb 180 (length str_id1 + length str_id2 + length delete_friends)) minus_one (
        send 200 delete_friends (str_id1 ∷ codes " AND ID2 = " ∷ str_id2 ∷ codes ");" ∷ [])
          minus_one (λ rows id. pure (pos 0))))
