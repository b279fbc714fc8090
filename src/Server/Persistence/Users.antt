-- ===== src/Server/Persistence/Users.antt =====
-- server/persistence.c: the table of users.
use psd_ims.Prelude.{ℕ, ◌+◌, List, [], ◌∷◌, length, leb, Text, codes, if◌then◌else◌}
use psd_ims.Prelude.Int.{ℤ, pos}
use psd_ims.Server.Run.{
  Row, M, pure, ◌>>=◌, return_if, return_if_null, minus_one, sprintf_int, write_text, send, atoi,
  column, has_rows,
}

abbrev pub max_query_chars : ℕ
max_query_chars = 500

unfoldable pub add_user : (name pass information : Text) → M ℤ
add_user name pass information = return_if_null minus_one (
    return_if (leb max_query_chars (length name + length pass + length information + 58)) minus_one
      (send max_query_chars (codes "INSERT INTO users(NAME,PASS,INFORMATION, VALID) VALUES('")
        (name ∷ codes "','" ∷ pass ∷ codes "','" ∷ information ∷ codes "',1);" ∷ []) minus_one
        (λ rows id. pure (pos 0))))

unfoldable pub del_user : Text → M ℤ
del_user name = return_if_null minus_one (
    return_if (leb max_query_chars (length name + 34)) minus_one (
      send max_query_chars (codes "UPDATE users SET VALID = 0 where NAME = '")
        (name ∷ codes "';" ∷ []) minus_one (λ rows id. pure (pos 0))))

unfoldable pub user_exist : Text → M ℤ
user_exist name = return_if_null minus_one (
    return_if (leb max_query_chars (length name + 36)) minus_one (
      send max_query_chars (codes "SELECT * FROM users where ((NAME = '")
        (name ∷ codes "') and (VALID = 1));" ∷ []) minus_one (λ rows id. pure (has_rows rows))))

unfoldable pub user_entry_exist : Text → M ℤ
user_entry_exist name = return_if_null minus_one (
    return_if (leb max_query_chars (length name + 36)) minus_one (
      send max_query_chars (codes "SELECT * FROM users where ((NAME = '") (name ∷ codes "'));" ∷ [])
        minus_one (λ rows id. pure (has_rows rows))))

abbrev pub select_pass : Text
select_pass = codes "SELECT PASS FROM users where ((NAME = '"

-- `buff` is what the caller's array holds at the call; the array is returned with the code.
unfoldable pub get_user_pass : (name buff : Text) → (max_chars : ℕ) → M (ℤ × Text)
get_user_pass name buff max_chars =
    return_if_null (minus_one, buff)
      (return_if (leb max_query_chars (length name + length select_pass + 2)) (minus_one, buff)
        (send max_query_chars select_pass (name ∷ codes "') and (VALID = 1));" ∷ [])
          (minus_one, buff)
          (λ rows id. elim rows [
            | [] ↦ pure (minus_one, buff)
            | r ∷ rs ↦ do
              pass ← column r 0
              if leb max_chars (length pass) then pure (minus_one, buff) else pure (pos 0, pass)
          ])))

abbrev pub select_id : Text
select_id = codes "SELECT ID FROM users where ((NAME = '"

abbrev pub id_of_rows : List Row → ℤ → M ℤ
id_of_rows [] id = pure minus_one
id_of_rows (r ∷ rs) id = do id_text ← column r 0; pure (atoi id_text)

unfoldable pub get_user_id : Text → M ℤ
unfolding atoi
get_user_id name = return_if_null minus_one (
    return_if (leb max_query_chars (length name + length select_id + 2)) minus_one (
      send max_query_chars select_id (name ∷ codes "') and (VALID = 1));" ∷ []) minus_one
        id_of_rows))

-- The bodies of `get_user_name` and `get_user_info`, which differ in the text of the query. A text that
-- is too long for `buff` is copied all the same.
unfoldable pub get_user_text : Text → ℤ → (buff : Text) → (max_chars : ℕ) → M (ℤ × Text)
get_user_text start user_id buff max_chars = do
  str_id ← sprintf_int 20 user_id
  return_if_null (minus_one, buff)
      (return_if (leb max_query_chars (length str_id + length start + 2)) (minus_one, buff)
        (send max_query_chars start (str_id ∷ codes "';" ∷ []) (minus_one, buff)
          (λ rows id. elim rows [
            | [] ↦ pure (minus_one, buff)
            | r ∷ rs ↦ do
              text ← column r 0
              copied ← write_text max_chars text
              pure (pos 0, copied)
          ])))

unfoldable pub get_user_name : ℤ → (buff : Text) → (max_chars : ℕ) → M (ℤ × Text)
unfolding get_user_text
get_user_name = get_user_text (codes "SELECT NAME FROM users where ID = '")

unfoldable pub get_user_info : ℤ → (buff : Text) → (max_chars : ℕ) → M (ℤ × Text)
unfolding get_user_text
get_user_info = get_user_text (codes "SELECT INFORMATION FROM users where ID = '")
