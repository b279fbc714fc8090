-- ===== src/Server/Run.antt =====
-- What server/persistence.c does to its `char` arrays and to the connection to MySQL.
use psd_ims.Prelude.{
  ℕ, zero, suc, ◌+◌, ◌-◌, ◌*◌, ◌/◌, ◌%◌, Bool, Option, none, some, List, [], ◌∷◌, ◌++◌, length, leb,
  ltb, ◌==◌, ◌&&◌, Text, if◌then◌else◌,
}
use psd_ims.Prelude.Int.{ℤ, pos, negsuc}

-- A row of a result: the text of each column, `none` for NULL.
abbrev pub Row : Type 0
Row = List (Option Text)

-- What the MySQL server answers to a query: an error, or the rows of the stored result and the id that
-- `mysql_insert_id` then gives.
pub data Reply : Type 0 where
  refused : Reply
  stored : List Row → ℤ → Reply

-- A connection: whether `persistence->mysql` is NULL, the queries sent so far, oldest first, and the
-- server at the other end, which answers by all that it has been sent.
pub record Conn : Type 0 where
  pub mysql_null : Bool
  pub sent : List Text
  pub answer : List Text → Reply

-- A run ends with a value, or in undefined behaviour: a write behind the end of an array, or a read
-- through NULL.
pub data Run {ℓ} (A : Type ℓ) : Type ℓ where
  done : A → Conn → Run A
  crash : Run A

abbrev pub M {ℓ} : Type ℓ → Type ℓ
M A = Conn → Run A

abbrev pub pure {ℓ} : {A : Type ℓ} → A → M A
pure a c = done a c

infixl 5 ◌>>=◌ ◌>>◌
abbrev pub ◌>>=◌ {ℓ κ} : {A : Type ℓ} {B : Type κ} → M A → (A → M B) → M B
◌>>=◌ m f c = elim (m c) [ done a c' ↦ f a c' | crash ↦ crash ]

abbrev pub ◌>>◌ {ℓ κ} : {A : Type ℓ} {B : Type κ} → M A → M B → M B
m >> k = m >>= λ _. k

-- `return a` if the test holds, and otherwise what follows.
abbrev pub return_if {ℓ} : {A : Type ℓ} → Bool → A → M A → M A
return_if b a k c = if b then done a c else k c

-- `if (persistence->mysql == NULL) return a`
abbrev pub return_if_null {ℓ} : {A : Type ℓ} → A → M A → M A
return_if_null a k c = if c.mysql_null then done a c else k c

abbrev pub minus_one : ℤ
minus_one = negsuc 0

-- `sprintf(buff, "%d", n)`: the digits of a number below 10^20, as every `int` is.
unfoldable pub show_digits : ℕ → ℕ → Text
show_digits zero n = []
show_digits (suc fuel) n =
    let more = show_digits fuel (n / 10) ++ (b'0' + n % 10) ∷ [] in
    if ltb n 10 then (b'0' + n) ∷ [] else more

unfoldable pub show_int : ℤ → Text
unfolding show_digits
show_int (pos n) = show_digits 20 n
show_int (negsuc n) = b'-' ∷ show_digits 20 (suc n)

-- `atoi`: a sign, and the digits up to the first other character.
unfoldable pub scan_digits : Text → ℕ → ℕ
scan_digits [] acc = acc
scan_digits (x ∷ xs) acc =
    let more = scan_digits xs (acc * 10 + (x - b'0')) in
    if leb b'0' x && leb x b'9' then more else acc

unfoldable pub atoi : Text → ℤ
unfolding scan_digits
atoi [] = pos 0
atoi (x ∷ xs) =
    if x == b'-'
    then elim (scan_digits xs 0) [ zero ↦ pos 0 | suc n ↦ negsuc n ]
    else if x == b'+'
    then pos (scan_digits xs 0)
    else pos (scan_digits (x ∷ xs) 0)

-- A write of a text and its final NUL to the start of an array of `size` bytes.
abbrev pub write_text : ℕ → Text → M Text
write_text size t c = if leb (length t + 1) size then done t c else crash

abbrev pub sprintf_int : ℕ → ℤ → M Text
sprintf_int size n = write_text size (show_int n)

-- A run of `strcat` calls on the array `buff` of `size` bytes.
unfoldable pub strcats : ℕ → Text → List Text → M Text
strcats size buff [] c = done buff c
strcats size buff (piece ∷ rest) c =
    let more = strcats size (buff ++ piece) rest c in
    if leb (length (buff ++ piece) + 1) size then more else crash

-- `mysql_query` followed by `mysql_store_result`.
abbrev pub mysql_query : Text → M Reply
mysql_query q c = done (c.answer (c.sent ++ q ∷ [])) (record c { sent = c.sent ++ q ∷ [] })

-- The query in an array that starts with `start` and gets `pieces` by `strcat`, sent; `a` is returned
-- where MySQL refuses it.
unfoldable pub send {ℓ} : {A : Type ℓ} → ℕ → Text → List Text → A → (List Row → ℤ → M A) → M A
unfolding strcats
send size start pieces a k = do
  consulta ← strcats size start pieces
  reply ← mysql_query consulta
  elim reply [ refused ↦ pure a | stored rows id ↦ k rows id ]

-- `row[i]`, read as a C string.
abbrev pub nth_column : Row → ℕ → Option Text
nth_column [] i = none
nth_column (x ∷ xs) zero = x
nth_column (x ∷ xs) (suc i) = nth_column xs i

abbrev pub column : Row → ℕ → M Text
column r i c = elim (nth_column r i) [ none ↦ crash | some t ↦ done t c ]

-- The first row of a result; `mysql_fetch_row` gives NULL where there is none.
abbrev pub fetch_row : List Row → M Row
fetch_row [] c = crash
fetch_row (r ∷ rs) c = done r c

-- `(mysql_num_rows(res) > 0)? 1 : 0`
abbrev pub has_rows : List Row → ℤ
has_rows [] = pos 0
has_rows (r ∷ rs) = pos 1

-- One result for each row, in their order.
unfoldable pub each_row {ℓ} : {A : Type ℓ} → (Row → M A) → List Row → M (List A)
each_row f [] c = done [] c
each_row f (r ∷ rs) c = elim (f r c) [
  | crash ↦ crash
  | done a c' ↦ elim (each_row f rs c') [ crash ↦ crash | done as_ c'' ↦ done (a ∷ as_) c'' ]
]
