-- ===== src/Server/Decimal.antt =====
-- `sprintf` with "%d" and `atoi`, by which ids and times pass through the texts of queries and rows.
use psd_ims.Prelude.{
  ℕ, zero, suc, ◌+◌, ◌*◌, ◌/◌, ◌%◌, ◌-◌, ◌<◌, ◌≡◌, refl, true, ◌&&◌, [], ◌∷◌, ◌++◌, arith, Text,
  leb, All,
}
use psd_ims.Prelude.Int.{ℤ, pos, negsuc}
use psd_ims.Server.Run.{show_digits, show_int, scan_digits, atoi}
use psd_ims.Server.Digits.{ten_to, IsInt32}

-- All bytes are digits.
abbrev AllDigits : Text → Type 0
AllDigits = All (λ x. (leb b'0' x && leb x b'9') ≡ true)

AllDigits-append_one :
    (xs : Text) (x : ℕ)
    → AllDigits xs
    → (leb b'0' x && leb x b'9') ≡ true
    → AllDigits (xs ++ x ∷ [])
AllDigits-append_one [] x h k = (k, tt)
AllDigits-append_one (y ∷ ys) x h k = (h.0, AllDigits-append_one ys x h.1 k)

show_digits-AllDigits : (fuel n : ℕ) → AllDigits (show_digits fuel n)
unfolding show_digits
show_digits-AllDigits zero n = tt
show_digits-AllDigits (suc fuel) n = ground (
  arith,
  AllDigits-append_one (show_digits fuel (n / 10)) (b'0' + n % 10),
  show_digits-AllDigits fuel (n / 10),
)

scan_digits-append_one :
    (xs : Text) (x acc : ℕ)
    → AllDigits xs
    → (leb b'0' x && leb x b'9') ≡ true
    → scan_digits (xs ++ x ∷ []) acc ≡ scan_digits xs acc * 10 + (x - b'0')
unfolding scan_digits
scan_digits-append_one [] x acc h k = ground (arith, k)
scan_digits-append_one (y ∷ ys) x acc h k =
    ground (arith, h.0, scan_digits-append_one ys x (acc * 10 + (y - b'0')) h.1 k)

scan_digits-show_digits : (fuel n : ℕ) → n < ten_to fuel → scan_digits (show_digits fuel n) 0 ≡ n
unfolding show_digits scan_digits
scan_digits-show_digits zero n h = omega arith
scan_digits-show_digits (suc fuel) n h = ground (
  arith,
  scan_digits-show_digits fuel (n / 10),
  scan_digits-append_one (show_digits fuel (n / 10)) (b'0' + n % 10) 0
      (show_digits-AllDigits fuel (n / 10)),
)

atoi-AllDigits : (xs : Text) → AllDigits xs → atoi xs ≡ pos (scan_digits xs 0)
unfolding atoi scan_digits
atoi-AllDigits [] h = refl
atoi-AllDigits (x ∷ xs) h = ground (arith, h.0)

-- A number of 32 bits that `sprintf` has written with "%d" is read back by `atoi`.
pub atoi-show_int : (z : ℤ) → IsInt32 z → atoi (show_int z) ≡ z
unfolding show_int atoi
atoi-show_int (pos n) h = ground (
  arith,
  atoi-AllDigits (show_digits 20 n) (show_digits-AllDigits 20 n),
  scan_digits-show_digits 20 n (omega arith),
)
atoi-show_int (negsuc n) h = ground (arith, scan_digits-show_digits 20 (suc n) (omega arith))
