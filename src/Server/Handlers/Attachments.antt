-- ===== src/Server/Handlers/Attachments.antt =====
-- server/psd_ims_server.c: the two handlers for the files that are attached to messages. The file system
-- is a parameter as to what it permits; the files that it keeps are part of the state.
use psd_ims.Prelude.{
  ℕ, Bool, false, ◌&&◌, ◌++◌, Option, none, some, List, [], ◌∷◌, Text, codes, same_text, take, leb,
  ltb, length, if◌then◌else◌,
}
use psd_ims.Prelude.Int.{ℤ, pos, same_int}
use psd_ims.Server.Run.{M, done, crash, pure, ◌>>=◌, return_if, show_int, write_text}
use psd_ims.Server.Persistence.MessageTable.{message_can_attach, message_have_attach}
use psd_ims.Server.Login.{LoginInfo, SoapStatus, soap_ok, soap_user_error, Env, with_login}

-- The files by their paths, the newest first.
abbrev pub Files : Type 0
Files = List (Text × Text)

unfoldable pub file_at : Files → Text → Option Text
file_at [] path = none
file_at ((p, content) ∷ rest) path = if same_text p path then some content else file_at rest path

-- What the file system permits to a call: whether a file that exists can be opened, whether a new one
-- can be made, how many bytes of it `fwrite` takes, into the buffer of the stream or out of it, and how many of
-- them have come to the disk when `fclose` is through, whose result is not looked at.
pub record FileEnv : Type 0 where
  pub can_open : Text → Bool
  pub can_create : Text → Bool
  pub taken : ℕ
  pub stored : ℕ

abbrev pub max_file_chars : ℕ
max_file_chars = 10_485_760

-- The macro `create_file_path`, and its use on a block of 20 bytes.
unfoldable pub file_path : (chat_id timestamp : ℤ) → Text
file_path chat_id timestamp = codes "server_files/_" ++ show_int chat_id ++ show_int timestamp

abbrev pub create_file_path : (chat_id timestamp : ℤ) → M Text
create_file_path chat_id timestamp = write_text 20 (file_path chat_id timestamp)

-- What `fopen(path, "r")` gives to read, `none` for NULL.
abbrev pub open_file : FileEnv → Files → Text → Option Text
open_file e files path = if e.can_open path then file_at files path else none

-- The loop that reads the file byte by byte ends at its end or at `MAX_FILE_CHARS`. Where the file cannot
-- be opened `fclose` gets NULL.
unfoldable pub read_attachment : FileEnv → Files → Text → M (SoapStatus × Option Text)
read_attachment e files path c = elim (open_file e files path) [
  | none ↦ crash
  | some content ↦ done (soap_ok, some (take max_file_chars content)) c
]

unfoldable pub get_attachment :
    Env
    → FileEnv
    → (file_null : Bool) → Option LoginInfo
    → (chat_id msg_timestamp : ℤ) → Files
    → M (SoapStatus × Option Text)
unfolding with_login read_attachment
get_attachment env e file_null login chat_id msg_timestamp files =
    with_login env file_null login (soap_user_error, none)
      λ id_user. do
        have ← message_have_attach id_user chat_id msg_timestamp
        return_if (same_int have (pos 0)) (soap_user_error, none)
            do path ← create_file_path chat_id msg_timestamp; read_attachment e files path

-- `fwrite` of the whole file as one item: it returns 1 when the stream has taken all of it, and not nothing.
abbrev pub all_taken : FileEnv → Text → Bool
all_taken e file = ltb 0 (length file) && leb (length file) e.taken

-- The file is not overwritten; what has come to the disk stays, whatever the result.
unfoldable pub write_attachment : FileEnv → Files → Text → Text → SoapStatus × Files
write_attachment e files path file = elim (open_file e files path) [
  | some content ↦ (soap_user_error, files)
  | none ↦
      if e.can_create path
      then (
        (if all_taken e file then soap_ok else soap_user_error),
        (path, take e.stored file) ∷ files,
      )
      else (soap_user_error, files)
]

unfoldable pub send_attachment :
    Env
    → FileEnv
    → Option LoginInfo
    → (chat_id msg_timestamp : ℤ) → (file : Option Text) → Files
    → M (SoapStatus × Files)
unfolding with_login write_attachment
send_attachment env e login chat_id msg_timestamp none files = pure (soap_user_error, files)
send_attachment env e login chat_id msg_timestamp (some file) files =
    with_login env false login (soap_user_error, files)
      λ id_user. do
        can ← message_can_attach id_user chat_id msg_timestamp
        return_if (same_int can (pos 0)) (soap_user_error, files)
            do
              path ← create_file_path chat_id msg_timestamp
              pure (write_attachment e files path file)
