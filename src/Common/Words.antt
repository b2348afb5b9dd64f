-- ===== src/Common/Words.antt =====
-- More of package strings: prefixes, parts of a text, letters, words, and the numbers of strconv.
use Prim.Native.Nat.{ℕ, zero, suc, ◌+◌, ◌<◌}
use mathlib.Core.Path.{◌≡◌, refl}
use mathlib.Core.Bool.{Bool, true, false, ◌&&◌, ◌||◌, not}
use mathlib.Core.List.{List, [], ◌∷◌, ◌++◌, append-nil, append_assoc}
use mathlib.Core.Option.{Option, none, some}
use native.Mathlib.Omega.{arith}
use public_golibs.Common.Tests.{ltb, leb, lt→ltb, ◌==◌, if◌then◌else◌}
use public_golibs.Common.Lists.{length, drop, All}
use public_golibs.Common.Texts.{Text, is_space, is_empty}
use public_golibs.Common.Int.{ℤ, pos, negsuc, two63}
use public_golibs.Common.Decimal.{format, value, is_digit, IsDigit}

-- strings.HasPrefix
unfoldable pub has_prefix : Text → Text → Bool
has_prefix s [] = true
has_prefix [] (c ∷ p) = false
has_prefix (d ∷ s) (c ∷ p) = d == c && has_prefix s p

-- strings.TrimPrefix
unfoldable pub trim_prefix : Text → Text → Text
unfolding has_prefix
trim_prefix s p = if has_prefix s p then drop (length p) s else s

-- strings.TrimSuffix of one character
unfoldable pub trim_suffix : ℕ → Text → Text
trim_suffix x [] = []
trim_suffix x (c ∷ []) = if c == x then [] else c ∷ []
trim_suffix x (c ∷ d ∷ s) = c ∷ trim_suffix x (d ∷ s)

-- strings.Contains
unfoldable pub contains : Text → Text → Bool
unfolding has_prefix
contains [] p = is_empty p
contains (c ∷ s) p = has_prefix (c ∷ s) p || contains s p

-- strings.ToLower, on ASCII letters
abbrev pub lower : ℕ → ℕ
lower c = if leb b'A' c && leb c b'Z' then c + 32 else c

abbrev pub to_lower : Text → Text
to_lower [] = []
to_lower (c ∷ s) = lower c ∷ to_lower s

-- A word that is complete is put before the others.
abbrev pub flush : Text → List Text → List Text
flush [] words = words
flush (c ∷ w) words = (c ∷ w) ∷ words

-- strings.Fields, with the part of a word before the text.
unfoldable pub fields_from : Text → Text → List Text
fields_from word [] = flush word []
fields_from word (c ∷ s) =
    let apart = flush word (fields_from [] s) in
    let longer = fields_from (word ++ c ∷ []) s in if is_space c then apart else longer

unfoldable pub fields : Text → List Text
unfolding fields_from
fields s = fields_from [] s

abbrev pub all_digits : Text → Bool
all_digits [] = true
all_digits (c ∷ s) = is_digit c && all_digits s

-- fmt's %d
unfoldable pub format_int : ℤ → Text
unfolding format
format_int (pos n) = format n
format_int (negsuc n) = b'-' ∷ format (suc n)

abbrev digits_value : Text → Option ℕ
digits_value s = if not (is_empty s) && all_digits s then some (value s) else none

abbrev positive : Option ℕ → Option ℤ
positive none = none
positive (some n) = if ltb n two63 then some (pos n) else none

abbrev negative : Option ℕ → Option ℤ
negative none = none
negative (some zero) = some (pos 0)
negative (some (suc n)) = if leb (suc n) two63 then some (negsuc n) else none

-- strconv.Atoi, for an int of 64 bits
unfoldable pub atoi : Text → Option ℤ
atoi [] = none
atoi (c ∷ s) =
    if c == b'-'
    then negative (digits_value s)
    else if c == b'+'
    then positive (digits_value s)
    else positive (digits_value (c ∷ s))

-- A word without spaces before a space, or at the end.
pub fields_from-word :
    (w v s : Text) (c : ℕ)
    → All (λ d. is_space d ≡ false) v
    → is_space c ≡ true
    → fields_from w (v ++ c ∷ s) ≡ flush (w ++ v) (fields_from [] s)
unfolding fields_from
fields_from-word w [] s c h e = rw (e, append-nil w) refl
fields_from-word w (d ∷ v) s c h e =
    rw (h.0, fields_from-word (w ++ d ∷ []) v s c h.1 e, append_assoc w (d ∷ []) v) refl

pub fields_from-last :
    (w v : Text) → All (λ d. is_space d ≡ false) v → fields_from w v ≡ flush (w ++ v) []
unfolding fields_from
fields_from-last w [] h = rw (append-nil w) refl
fields_from-last w (d ∷ v) h =
    rw (h.0, fields_from-last (w ++ d ∷ []) v h.1, append_assoc w (d ∷ []) v) refl

pub all_digits-IsDigit : (s : Text) → All IsDigit s → all_digits s ≡ true
all_digits-IsDigit [] h = refl
all_digits-IsDigit (c ∷ s) h = ground (arith, all_digits-IsDigit s h.1)

pub atoi-digits :
    (s : Text)
    → All IsDigit s
    → is_empty s ≡ false
    → value s < two63
    → atoi s ≡ some (pos (value s))
unfolding atoi
atoi-digits [] h e l = cc
atoi-digits (c ∷ s) h e l =
    let no_minus : (c == b'-') ≡ false = ground (arith, h.0) in
    let no_plus : (c == b'+') ≡ false = ground (arith, h.0) in
    let first : is_digit c ≡ true = ground (arith, h.0) in
    rw (no_minus, no_plus, first, all_digits-IsDigit s h.1, lt→ltb (value (c ∷ s)) two63 l) refl
