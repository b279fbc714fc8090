-- ===== src/Server/Digits.antt =====
-- How long the decimal text of an `int` is.
use psd_ims.Prelude.{
  ℕ, zero, suc, ◌+◌, ◌*◌, ◌/◌, ◌%◌, ◌≤◌, ◌<◌, [], ◌∷◌, arith, length, length-append,
}
use psd_ims.Prelude.Int.{ℤ, pos, negsuc, pos_part, neg_part}
use psd_ims.Server.Run.{show_digits, show_int}

-- 10 to the power of `k`.
abbrev pub ten_to : ℕ → ℕ
ten_to zero = 1
ten_to (suc k) = 10 * ten_to k

ten_to_pos : (k : ℕ) → 0 < ten_to k
ten_to_pos zero = omega arith
ten_to_pos (suc k) = omega (arith, ten_to_pos k)

-- A number below 10^(k + 1) has at most k + 1 digits.
pub length-show_digits-le :
    (k fuel n : ℕ) → n < ten_to (suc k) → length (show_digits fuel n) ≤ suc k
unfolding show_digits
length-show_digits-le k zero n h = omega arith
length-show_digits-le zero (suc fuel) n h = ground arith
length-show_digits-le (suc k) (suc fuel) n h = ground (
  arith,
  length-show_digits-le k fuel (n / 10),
  length-append (show_digits fuel (n / 10)) ((b'0' + n % 10) ∷ []),
)

-- A number from 10^k on has more than k digits, where the fuel allows.
pub length-show_digits-ge :
    (k fuel n : ℕ) → k < fuel → ten_to k ≤ n → k < length (show_digits fuel n)
unfolding show_digits
length-show_digits-ge k zero n f h = absurd (omega arith)
length-show_digits-ge zero (suc fuel) n f h =
    ground (arith, length-append (show_digits fuel (n / 10)) ((b'0' + n % 10) ∷ []))
length-show_digits-ge (suc k) (suc fuel) n f h = ground (
  arith,
  ten_to_pos k,
  length-show_digits-ge k fuel (n / 10),
  length-append (show_digits fuel (n / 10)) ((b'0' + n % 10) ∷ []),
)

-- From 10^9 on, and so for every time since September 2001, the text has ten digits or more.
pub length-show_int-ge : (n : ℕ) → 1_000_000_000 ≤ n → 10 ≤ length (show_int (pos n))
unfolding show_int
length-show_int-ge n h = length-show_digits-ge 9 20 n (omega arith) h

pub length-show_int-le : (n : ℕ) → n < 1_000_000_000 → length (show_int (pos n)) ≤ 9
unfolding show_int
length-show_int-le n h = length-show_digits-le 8 20 n h

-- An `int` of 32 bits.
abbrev pub IsInt32 : ℤ → Type 0
IsInt32 z = (pos_part z < 2147483648) × (neg_part z ≤ 2147483648)

pub length-show_int32 : (z : ℤ) → IsInt32 z → length (show_int z) ≤ 11
unfolding show_int
length-show_int32 (pos n) h = omega (arith, length-show_digits-le 9 20 n (omega arith))
length-show_int32 (negsuc n) h = omega (arith, length-show_digits-le 9 20 (suc n) (omega arith))
