-- ===== src/Deps/Number.antt =====
-- utils.c: utils_strtoll, and the numbers that deps.c prints.
pub mod Decimal
use autark.Prelude.{
  ℕ, zero, suc, ◌+◌, ◌-◌, ◌*◌, ◌/◌, ◌%◌, ◌^◌, Bool, true, false, ◌&&◌, Option, none, some, [], ◌∷◌,
  ◌++◌, Bytes, ltb, leb, ◌==◌, if◌then◌else◌,
}
use autark.Utils.Text.{char_is_space}
use autark.Utils.Words.{skip_spaces}

-- Integers over the native natural numbers: negsuc n is -(n + 1).
pub data ℤ : Type 0 where
  pos negsuc : ℕ → ℤ

-- The decimal digits; the fuel n + 1 is enough for n.
unfoldable pub digits : ℕ → ℕ → Bytes
digits zero n = []
digits (suc fuel) n =
    let front = digits fuel (n / 10) in
    if ltb n 10 then (b'0' + n) ∷ [] else front ++ ((b'0' + n % 10) ∷ [])

-- printf of an int64_t with PRId64
unfoldable pub print_i64 : ℤ → Bytes
unfolding digits
print_i64 (pos n) = digits (n + 1) n
print_i64 (negsuc n) = b'-' ∷ digits (n + 1 + 1) (n + 1)

unfoldable pub is_digit : ℕ → Bool
is_digit c = leb b'0' c && leb c b'9'

-- The number that the digits in front of a text continue, and the text behind them.
unfoldable pub scan_digits : ℕ → Bytes → ℕ × Bytes
scan_digits n [] = (n, [])
scan_digits n (c ∷ s) =
    let rest = scan_digits (n * 10 + (c - b'0')) s in if is_digit c then rest else (n, c ∷ s)

-- The sign in front of a number, and the text behind it.
unfoldable pub sign : Bytes → Bool × Bytes
sign [] = (false, [])
sign (c ∷ s) = if c == b'-' then (true, s) else if c == b'+' then (false, s) else (false, c ∷ s)

unfoldable pub begins_with_digit : Bytes → Bool
unfolding is_digit
begins_with_digit [] = false
begins_with_digit (c ∷ s) = is_digit c

-- *ep == '\0' || *ep == '\n'
unfoldable pub ends_number : Bytes → Bool
ends_number [] = true
ends_number (c ∷ s) = c == b'\n'

-- The number with its sign, if it is no ERANGE.
unfoldable pub in_range : Bool → ℕ → Option ℤ
in_range true n =
    if n == 0 then some (pos 0) else if leb n (2 ^ 63) then some (negsuc (n - 1)) else none
in_range false n = if ltb n (2 ^ 63) then some (pos n) else none

-- The number that the digits gave, if the text ends behind them.
unfoldable pub read_number : Bool → ℕ × Bytes → Option ℤ
read_number negative r = if ends_number r.1 then in_range negative r.0 else none

-- The number behind the sign; without digits strtoll stops where it began, and returns zero.
unfoldable pub signed_number : Bytes → Bool × Bytes → Option ℤ
unfolding read_number
signed_number v r =
    if begins_with_digit r.1
    then read_number r.0 (scan_digits 0 r.1)
    else if ends_number v
    then some (pos 0)
    else none

-- utils_strtoll to the base 10; `none` if it sets the error.
unfoldable pub strtoll : Bytes → Option ℤ
unfolding signed_number
strtoll v = signed_number v (sign (skip_spaces v))
