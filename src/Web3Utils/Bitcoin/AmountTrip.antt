-- ===== src/Web3Utils/Bitcoin/AmountTrip.antt =====
-- web3utils/bitcoin: the text of an amount is read back as the amount.
use public_golibs.Common.{
  ℕ, zero, suc, ◌+◌, ◌-◌, ◌*◌, ◌/◌, ◌%◌, ◌≤◌, ◌<◌, ◌≡◌, ◌≢◌, refl, true, false, [], ◌∷◌, ◌++◌,
  arith, Text, length, length-append, ltb, ◌==◌, is_empty, trim_right, put_unless, is_space,
  Bool-cases, inl, inr, All, All-append, ◌∙◌, ap, append_assoc,
}
use public_golibs.Common.Int.{pos}
use public_golibs.Common.Trim.{
  All-imp, trim_right-none, trim_right-append, trim_right-last, trim_right-All, trim_space-none,
}
use public_golibs.Common.Split.{Lacks, split-append, split-Lacks}
use public_golibs.Common.Decimal.{
  format, value, IsDigit, is_digit, value-format, format-IsDigit, format-length, format-is_empty,
}
use public_golibs.Web3Utils.Bitcoin.Amount.{
  parsed, max_satoshi, digits_only, all_digits, repeat, from_trimmed, combined, parse_btc_amount,
  padded, is_zero, is_dot, or_zero, format_satoshi,
}

-- What is trimmed are zeros, which can be put back.
abbrev ZerosBack : Text → Text → Type 0
ZerosBack r s = (k : ℕ) × (r ++ repeat b'0' k ≡ s) × (k + length r ≡ length s)

zeros_cons : (c : ℕ) (r s : Text) → ZerosBack r s → ZerosBack (put_unless (is_zero c) c r) (c ∷ s)
zeros_cons c [] s (k, e, l) = elim (Bool-cases (is_zero c)) [
  | inl z ↦ rw z (suc k, ground (arith, e), omega (arith, l))
  | inr z ↦ rw z (k, ground (arith, e), omega (arith, l))
]
zeros_cons c (d ∷ r) s (k, e, l) = (k, ap (λ t. c ∷ t) e, omega (arith, l))

zeros_back : (s : Text) → ZerosBack (trim_right is_zero s) s
unfolding trim_right
zeros_back [] = (0, refl, omega arith)
zeros_back (c ∷ s) = zeros_cons c (trim_right is_zero s) s (zeros_back s)

value-repeat : (n : ℕ) (s : Text) → value (repeat b'0' n ++ s) ≡ value s
value-repeat zero s = refl
value-repeat (suc n) s = value-repeat n s

repeat-IsDigit : (n : ℕ) → All IsDigit (repeat b'0' n)
repeat-IsDigit zero = tt
repeat-IsDigit (suc n) = (omega arith, repeat-IsDigit n)

repeat-length : (n : ℕ) → length (repeat b'0' n) ≡ n
repeat-length zero = refl
repeat-length (suc n) = ground (arith, repeat-length n)

all_digits-IsDigit : (s : Text) → All IsDigit s → all_digits s ≡ true
all_digits-IsDigit [] h = refl
all_digits-IsDigit (c ∷ s) h = ground (arith, all_digits-IsDigit s h.1)

digit_not_dot : (c : ℕ) → IsDigit c → is_dot c ≡ false
digit_not_dot c h = ground arith

digit_not_zero : (c : ℕ) → IsDigit c → c ≢ b'.'
digit_not_zero c h = ground arith

digit_not_space : (c : ℕ) → IsDigit c → is_space c ≡ false
unfolding is_space
digit_not_space c h = ground arith

-- The eight digits behind the dot.
padded-IsDigit : (n : ℕ) → All IsDigit (padded n)
padded-IsDigit n =
    All-append IsDigit (repeat b'0' (8 - length (format n))) (format n)
      (repeat-IsDigit (8 - length (format n))) (format-IsDigit n)

padded-length : (n : ℕ) → n < 100000000 → length (padded n) ≡ 8
padded-length n h = omega (
  arith,
  length-append (repeat b'0' (8 - length (format n))) (format n),
  repeat-length (8 - length (format n)),
  format-length n 7 h,
)

value-padded : (n : ℕ) → value (padded n) ≡ n
value-padded n = value-repeat (8 - length (format n)) (format n) ∙ value-format n

-- A text of two runs of digits with a dot between is read as their amount.
from_trimmed-digits :
    (a q : Text)
    → All IsDigit a
    → All IsDigit q
    → is_empty a ≡ false
    → is_empty q ≡ false
    → length q ≤ 8
    → from_trimmed (a ++ b'.' ∷ q) ≡ combined a q
unfolding digits_only
from_trimmed-digits [] q ha hq na nq l = cc
from_trimmed-digits (c ∷ a) q ha hq na nq l =
    let lacks : (s : Text) → All IsDigit s → Lacks b'.' s = All-imp digit_not_zero in
    let no_plus : (c == b'+') ≡ false = ground (arith, ha.0) in
    let no_minus : (c == b'-') ≡ false = ground (arith, ha.0) in
    let short : ltb 8 (length q) ≡ false = ground (arith, l) in
    let first : is_digit c ≡ true = ground (arith, ha.0) in
    rw
      (
        no_plus,
        no_minus,
        split-append b'.' (c ∷ a) q (lacks (c ∷ a) ha),
        split-Lacks b'.' q (lacks q hq),
        first,
        all_digits-IsDigit a ha.1,
        nq,
        all_digits-IsDigit q hq,
        short,
      )
      refl

from_trimmed-whole :
    (a : Text) → All IsDigit a → is_empty a ≡ false → from_trimmed a ≡ combined a []
unfolding digits_only
from_trimmed-whole [] ha na = cc
from_trimmed-whole (c ∷ a) ha na =
    let no_plus : (c == b'+') ≡ false = ground (arith, ha.0) in
    let no_minus : (c == b'-') ≡ false = ground (arith, ha.0) in
    let first : is_digit c ≡ true = ground (arith, ha.0) in
    rw
      (
        no_plus,
        no_minus,
        split-Lacks b'.' (c ∷ a) (All-imp digit_not_zero (c ∷ a) ha),
        first,
        all_digits-IsDigit a ha.1,
      )
      refl

-- The text of an amount, from the digits before the dot and those behind it that are left.
abbrev shown : Text → Text → Text
shown a [] = a
shown a (d ∷ q) = a ++ b'.' ∷ d ∷ q

or_zero-full : (a : Text) → is_empty a ≡ false → or_zero a ≡ a
or_zero-full [] e = cc
or_zero-full (c ∷ a) e = refl

append-full : (a s : Text) (c : ℕ) → is_empty (a ++ c ∷ s) ≡ false
append-full [] s c = refl
append-full (d ∷ a) s c = refl

dots_trimmed :
    (a q : Text)
    → All IsDigit a
    → All IsDigit q
    → is_empty a ≡ false
    → or_zero (trim_right is_dot (a ++ b'.' ∷ q)) ≡ shown a q
dots_trimmed a [] ha hq na =
    rw (trim_right-last is_dot a b'.' (All-imp digit_not_dot a ha) refl) (or_zero-full a na)
dots_trimmed a (d ∷ q) ha hq na =
    let whole : (a ++ b'.' ∷ []) ++ d ∷ q ≡ a ++ b'.' ∷ d ∷ q =
      append_assoc a (b'.' ∷ []) (d ∷ q) in
    let front = a ++ b'.' ∷ [] in
    let there : trim_right is_dot (front ++ d ∷ q) ≡ front ++ d ∷ q =
      trim_right-append is_dot front q d (digit_not_dot d hq.0)
      ∙ ap (λ r. front ++ d ∷ r) (trim_right-none is_dot q (All-imp digit_not_dot q hq.1)) in
    let kept : trim_right is_dot (a ++ b'.' ∷ d ∷ q) ≡ a ++ b'.' ∷ d ∷ q = rw whole at there in
    rw kept (or_zero-full (a ++ b'.' ∷ d ∷ q) (append-full a (d ∷ q) b'.'))

read-shown :
    (a q : Text)
    → All IsDigit a
    → All IsDigit q
    → is_empty a ≡ false
    → length q ≤ 8
    → parse_btc_amount (shown a q) ≡ combined a q
unfolding parse_btc_amount is_space
read-shown a [] ha hq na l =
    rw (trim_space-none a (All-imp digit_not_space a ha)) (from_trimmed-whole a ha na)
read-shown a (d ∷ q) ha hq na l =
    let plain =
      All-append (λ c. is_space c ≡ false) a (b'.' ∷ d ∷ q) (All-imp digit_not_space a ha)
        (refl, All-imp digit_not_space (d ∷ q) hq) in
    rw (trim_space-none (a ++ b'.' ∷ d ∷ q) plain) (from_trimmed-digits a (d ∷ q) ha hq na refl l)

value-ZerosBack :
    (q s : Text) → ZerosBack q s → length s ≡ 8 → value (q ++ repeat b'0' (8 - length q)) ≡ value s
value-ZerosBack q s (k, e, l) eight =
    let same : 8 - length q ≡ k = omega (arith, l, eight) in rw (same, e) refl

-- Every amount from 0 to all the coins there are, in satoshi, is written as a text that is read back as
-- that amount.
pub parse_btc_amount-format_satoshi :
    (n : ℕ) → n ≤ max_satoshi → parse_btc_amount (format_satoshi (pos n)) ≡ parsed n
unfolding format_satoshi
parse_btc_amount-format_satoshi n h =
    let a = format (n / 100000000) in
    let f = n % 100000000 in
    let q = trim_right is_zero (padded f) in
    let back = zeros_back (padded f) in
    let (k, e, l) = back in
    let eight = padded-length f (omega arith) in
    let hq = trim_right-All IsDigit is_zero (padded f) (padded-IsDigit f) in
    let ha = format-IsDigit (n / 100000000) in
    let na = format-is_empty (n / 100000000) in
    let short : length q ≤ 8 = omega (arith, l, eight) in
    let total : value a * 100000000 + value (q ++ repeat b'0' (8 - length q)) ≡ n =
      rw (value-format (n / 100000000), value-ZerosBack q (padded f) back eight, value-padded f)
        (omega arith) in
    rw
      (
        trim_right-append is_zero a (padded f) b'.' refl,
        dots_trimmed a q ha hq na,
        read-shown a q ha hq na short,
        total,
      )
      (ground (arith, h))
