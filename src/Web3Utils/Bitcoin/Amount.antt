-- ===== src/Web3Utils/Bitcoin/Amount.antt =====
-- web3utils/bitcoin: amounts in BTC as texts (transaction.go, wallet.go).
use public_golibs.Common.{
  ℕ, zero, suc, ◌+◌, ◌-◌, ◌*◌, ◌/◌, ◌%◌, ◌≤◌, ◌≡◌, Bool, true, false, ◌&&◌, not, List, [], ◌∷◌,
  ◌++◌, arith, Text, codes, if◌then◌else◌, length, ltb, ◌==◌, is_empty, trim_space, trim_right,
}
use public_golibs.Common.Int.{ℤ, pos, negsuc}
use public_golibs.Common.Split.{split}
use public_golibs.Common.Decimal.{format, value, is_digit}

pub data AmountError : Type 0 where
  empty_amount negative_amount invalid_amount too_many_decimals out_of_range : AmountError

pub data Parsed : Type 0 where
  parsed : ℕ → Parsed
  refused : AmountError → Parsed

-- btcutil.MaxSatoshi
abbrev pub max_satoshi : ℕ
max_satoshi = 2100000000000000

abbrev pub all_digits : Text → Bool
all_digits [] = true
all_digits (c ∷ s) = is_digit c && all_digits s

unfoldable pub digits_only : Text → Bool
digits_only value = not (is_empty value) && all_digits value

abbrev pub repeat : ℕ → ℕ → Text
repeat c zero = []
repeat c (suc n) = c ∷ repeat c n

abbrev without_plus : Text → Text
without_plus [] = []
without_plus (c ∷ s) = if c == b'+' then s else c ∷ s

abbrev starts_with : ℕ → Text → Bool
starts_with c [] = false
starts_with c (d ∷ s) = d == c

abbrev pub in_range : ℕ → Parsed
in_range n = if ltb max_satoshi n then refused out_of_range else parsed n

-- A text of digits, the second with at most 8.
abbrev pub combined : Text → Text → Parsed
combined whole fraction =
    in_range (value whole * 100000000 + value (fraction ++ repeat b'0' (8 - length fraction)))

abbrev pub whole_part : Text → Text
whole_part whole = if is_empty whole then codes "0" else whole

abbrev pub from_parts : List Text → Parsed
from_parts [] = refused invalid_amount
from_parts (whole ∷ []) =
    if digits_only (whole_part whole)
    then combined (whole_part whole) []
    else refused invalid_amount
from_parts (whole ∷ fraction ∷ []) =
    if not (digits_only (whole_part whole))
    then refused invalid_amount
    else if not (digits_only fraction)
    then refused invalid_amount
    else if ltb 8 (length fraction)
    then refused too_many_decimals
    else combined (whole_part whole) fraction
from_parts (whole ∷ fraction ∷ third ∷ rest) = refused invalid_amount

abbrev pub from_trimmed : Text → Parsed
from_trimmed value =
    let unsigned = without_plus value in
    if is_empty value
    then refused empty_amount
    else if starts_with b'-' unsigned
    then refused negative_amount
    else from_parts (split b'.' unsigned)

unfoldable pub parse_btc_amount : Text → Parsed
unfolding digits_only
parse_btc_amount value = from_trimmed (trim_space value)

-- %08d of a number below 10 ^ 8
abbrev pub padded : ℕ → Text
padded n = let text = format n in repeat b'0' (8 - length text) ++ text

abbrev pub is_zero : ℕ → Bool
is_zero c = c == b'0'

abbrev pub is_dot : ℕ → Bool
is_dot c = c == b'.'

abbrev pub or_zero : Text → Text
or_zero text = if is_empty text then codes "0" else text

abbrev pub format_magnitude : ℕ → Text
format_magnitude n =
    let text = format (n / 100000000) ++ (b'.' ∷ padded (n % 100000000)) in
    or_zero (trim_right is_dot (trim_right is_zero text))

-- In the case of the least int64 the negation wraps to the same number, whose quotient and rest are
-- negative: the text is that of the quotient, a dot, and the rest with its sign in eight places.
abbrev least_text : Text
least_text = codes "--92233720368.-54775808"

unfoldable pub format_satoshi : ℤ → Text
format_satoshi (pos n) = format_magnitude n
format_satoshi (negsuc n) =
    if suc n == 9223372036854775808 then least_text else b'-' ∷ format_magnitude (suc n)

-- A text that is accepted stands for an amount between 0 and all the coins there are.
pub parse_btc_amount_range :
    (text : Text) (n : ℕ) → parse_btc_amount text ≡ parsed n → n ≤ max_satoshi
unfolding parse_btc_amount
parse_btc_amount_range text n h = ground arith
