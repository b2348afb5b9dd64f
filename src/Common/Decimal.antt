-- ===== src/Common/Decimal.antt =====
-- Decimal numbers: fmt's %d and strconv.Atoi on digits.
use Prim.Native.Nat.{ℕ, zero, suc, ◌+◌, ◌-◌, ◌*◌, ◌/◌, ◌%◌, ◌^◌, ◌≤◌, ◌<◌}
use mathlib.Core.Path.{◌≡◌, refl}
use mathlib.Core.Logic.{inl, inr}
use mathlib.Core.Bool.{Bool, true, false, ◌&&◌}
use mathlib.Core.List.{[], ◌∷◌, ◌++◌}
use native.Mathlib.Omega.{arith}
use native.Mathlib.Nat.{pow-suc}
use public_golibs.Common.Tests.{ltb, leb, Bool-cases}
use public_golibs.Common.Lists.{length, length-append, All, All-append}
use public_golibs.Common.Texts.{Text, is_empty}

-- The digits of a number, on fuel.
digits : ℕ → ℕ → Text
digits zero n = []
digits (suc f) n = elim (ltb n 10) [
  | true ↦ (b'0' + n) ∷ []
  | false ↦ digits f (n / 10) ++ (b'0' + n % 10) ∷ []
]

digits_small : (f n : ℕ) → ltb n 10 ≡ true → digits (suc f) n ≡ (b'0' + n) ∷ []
unfolding digits
digits_small f n e = rw (e, digits)

digits_big :
    (f n : ℕ) → ltb n 10 ≡ false → digits (suc f) n ≡ digits f (n / 10) ++ (b'0' + n % 10) ∷ []
unfolding digits
digits_big f n e = rw (e, digits)

-- fmt's %d of a number that is not negative
unfoldable pub format : ℕ → Text
unfolding digits
format n = digits (suc n) n

-- The number that digits spell.
abbrev pub value_from : ℕ → Text → ℕ
value_from acc [] = acc
value_from acc (c ∷ s) = value_from (acc * 10 + (c - b'0')) s

abbrev pub value : Text → ℕ
value = value_from 0

abbrev pub is_digit : ℕ → Bool
is_digit c = leb b'0' c && leb c b'9'

abbrev pub IsDigit : ℕ → Type 0
IsDigit c = (b'0' ≤ c) × (c ≤ b'9')

pub value_from-append :
    (acc : ℕ) (s : Text) (c : ℕ) → value_from acc (s ++ c ∷ []) ≡ value_from acc s * 10 + (c - b'0')
value_from-append acc [] c = refl
value_from-append acc (d ∷ s) c = value_from-append (acc * 10 + (d - b'0')) s c

value-digits : (f n : ℕ) → n < f → value (digits f n) ≡ n
value-digits zero n h = elim h [ ]
value-digits (suc f) n h = elim (Bool-cases (ltb n 10)) [
  | inl small ↦ rw (digits_small f n small) (omega arith)
  | inr big ↦
      rw (digits_big f n big, value_from-append 0 (digits f (n / 10)) (b'0' + n % 10))
        (ground (arith, value-digits f (n / 10)))
]

-- A number is read back from its print.
pub value-format : (n : ℕ) → value (format n) ≡ n
unfolding format
value-format n = value-digits (suc n) n (omega arith)

digits-IsDigit : (f n : ℕ) → All IsDigit (digits f n)
unfolding digits
digits-IsDigit zero n = tt
digits-IsDigit (suc f) n = elim (Bool-cases (ltb n 10)) [
  | inl small ↦ rw (digits_small f n small) (ground arith)
  | inr big ↦
      rw (digits_big f n big)
        (All-append IsDigit (digits f (n / 10)) _ (digits-IsDigit f (n / 10)) (omega arith))
]

pub format-IsDigit : (n : ℕ) → All IsDigit (format n)
unfolding format
format-IsDigit n = digits-IsDigit (suc n) n

-- A number below 10 ^ (k + 1) has at most k + 1 digits.
digits-length : (f n k : ℕ) → n < 10 ^ suc k → length (digits f n) ≤ suc k
digits-length zero n k b = unfold digits in omega arith
digits-length (suc f) n k b = elim (Bool-cases (ltb n 10)) [
  | inl small ↦ rw (digits_small f n small) (omega arith)
  | inr big ↦ rw (digits_big f n big) (longer k b big (digits-length f (n / 10)))
]
  where
    longer :
        (k : ℕ)
        → n < 10 ^ suc k
        → ltb n 10 ≡ false
        → ((j : ℕ) → n / 10 < 10 ^ suc j → length (digits f (n / 10)) ≤ suc j)
        → length (digits f (n / 10) ++ (b'0' + n % 10) ∷ []) ≤ suc k
    longer zero b big shorter = absurd (ground arith)
    longer (suc k) b big shorter = omega (
      arith,
      length-append (digits f (n / 10)) ((b'0' + n % 10) ∷ []),
      shorter k (omega (arith, pow-suc 10 (suc k))),
    )

pub format-length : (n k : ℕ) → n < 10 ^ suc k → length (format n) ≤ suc k
unfolding format
format-length n k b = digits-length (suc n) n k b

append-is_empty : (s : Text) (c : ℕ) → is_empty (s ++ c ∷ []) ≡ false
append-is_empty [] c = refl
append-is_empty (d ∷ s) c = refl

-- A print has at least one digit.
pub format-is_empty : (n : ℕ) → is_empty (format n) ≡ false
unfolding format
format-is_empty n = elim (Bool-cases (ltb n 10)) [
  | inl small ↦ rw (digits_small n n small) refl
  | inr big ↦ rw (digits_big n n big) (append-is_empty (digits n (n / 10)) (b'0' + n % 10))
]
