-- ===== src/Websocket/HexTrip.antt =====
-- websocket/codec.go: bytes are read back from their hexadecimal text.
use public_golibs.Common.{
  ℕ, ◌/◌, ◌%◌, ◌≤◌, ◌<◌, ◌≡◌, ◌≢◌, refl, Bool, true, false, some, List, [], ◌∷◌, Text, arith,
  if◌then◌else◌, length, ltb, is_empty, is_space, All,
}
use public_golibs.Common.Trim.{All-imp, trim_space-none}
use public_golibs.Websocket.Codec.{
  bytes, text, ok, text_bytes, hex_digit, encode_to_string, upper, to_upper, bytes_to_hex,
  without_char, without_pair, normalized, hex_value, decode_string, decode_hex_string,
  decode_normalized, bytes_from_hex,
}

abbrev pub IsByte : ℕ → Type 0
IsByte b = b < 256

-- No space, no mark, and neither letter x.
record IsPlain (c : ℕ) : Type 0 where
  low : 48 ≤ c
  high : c ≤ 102
  no_colon : c ≢ 58
  no_x : c ≢ 88

without_char-eq : (x : ℕ) (s : Text) → All (λ c. c ≢ x) s → without_char x s ≡ s
unfolding without_char
without_char-eq x [] h = refl
without_char-eq x (c ∷ s) h = ground (arith, without_char-eq x s h.1)

without_pair-eq : (x y : ℕ) (s : Text) → All (λ c. c ≢ y) s → without_pair x y s ≡ s
unfolding without_pair
without_pair-eq x y [] h = refl
without_pair-eq x y (c ∷ []) h = refl
without_pair-eq x y (c ∷ d ∷ s) h = ground (arith, without_pair-eq x y (d ∷ s) h.1)

plain_not_space : (c : ℕ) → IsPlain c → is_space c ≡ false
unfolding is_space
plain_not_space c h = ground (arith, h.low, h.high)

upper-IsPlain :
    (n : ℕ) (u : Bool) → n < 16 → IsPlain (if u then upper (hex_digit n) else hex_digit n)
upper-IsPlain n true h = record {
  low = ground arith;
  high = ground arith;
  no_colon = ground arith;
  no_x = ground arith;
}
upper-IsPlain n false h = record {
  low = ground arith;
  high = ground arith;
  no_colon = ground arith;
  no_x = ground arith;
}

value-digit :
    (n : ℕ) (u : Bool)
    → n < 16
    → hex_value (if u then upper (hex_digit n) else hex_digit n) ≡ some n
value-digit n true h = ground arith
value-digit n false h = ground arith

-- The text that is made without a separator.
abbrev spelled : Bool → List ℕ → Text
spelled u payload = if u then to_upper (encode_to_string payload) else encode_to_string payload

abbrev digit : Bool → ℕ → ℕ
digit u n = if u then upper (hex_digit n) else hex_digit n

spelled-nil : (u : Bool) → spelled u [] ≡ []
unfolding encode_to_string
spelled-nil true = refl
spelled-nil false = refl

spelled-cons :
    (u : Bool) (b : ℕ) (rest : List ℕ)
    → spelled u (b ∷ rest) ≡ digit u (b / 16) ∷ digit u (b % 16) ∷ spelled u rest
unfolding encode_to_string
spelled-cons true b rest = refl
spelled-cons false b rest = refl

spelled-IsPlain :
    (u : Bool) (payload : List ℕ) → All IsByte payload → All IsPlain (spelled u payload)
spelled-IsPlain u [] h = rw (spelled-nil u) tt
spelled-IsPlain u (b ∷ rest) h = rw (spelled-cons u b rest) (
  upper-IsPlain (b / 16) u (omega (arith, h.0)),
  (upper-IsPlain (b % 16) u (omega arith), spelled-IsPlain u rest h.1),
)

decode-spelled :
    (u : Bool) (payload : List ℕ)
    → All IsByte payload
    → decode_string (spelled u payload) ≡ some payload
unfolding decode_string
decode-spelled u [] h = rw (spelled-nil u) refl
decode-spelled u (b ∷ rest) h =
    rw
      (
        spelled-cons u b rest,
        value-digit (b / 16) u (omega (arith, h.0)),
        value-digit (b % 16) u (omega arith),
        decode-spelled u rest h.1,
      )
      (ground arith)

plain_bytes : (s : Text) → All IsPlain s → length (text_bytes s) ≡ length s
plain_bytes [] h = refl
plain_bytes (c ∷ s) h = rw (low_byte) (omega (arith, plain_bytes s h.1))
  where
    low_byte : ltb c 128 ≡ true
    low_byte = ground (arith, h.0.high)

spelled-even : (u : Bool) (payload : List ℕ) → length (spelled u payload) % 2 ≡ 0
spelled-even u [] = rw (spelled-nil u) refl
spelled-even u (b ∷ rest) = rw (spelled-cons u b rest) (omega (arith, spelled-even u rest))

normalized-plain : (s : Text) → All IsPlain s → normalized s ≡ s
unfolding normalized
normalized-plain s h =
    let lacks : (x : ℕ) → ((c : ℕ) → IsPlain c → c ≢ x) → All (λ c. c ≢ x) s =
      λ x f. All-imp f s h in
    rw
      (
        trim_space-none s (All-imp plain_not_space s h),
        without_pair-eq b'0' b'x' s (lacks b'x' (λ c p. ground (arith, p.high))),
        without_pair-eq b'0' b'X' s (lacks b'X' (λ c p. p.no_x)),
        without_char-eq b' ' s (lacks b' ' (λ c p. ground (arith, p.low))),
        without_char-eq 10 s (lacks 10 (λ c p. ground (arith, p.low))),
        without_char-eq 13 s (lacks 13 (λ c p. ground (arith, p.low))),
        without_char-eq 9 s (lacks 9 (λ c p. ground (arith, p.low))),
        without_char-eq b'-' s (lacks b'-' (λ c p. ground (arith, p.low))),
        without_char-eq b':' s (lacks b':' (λ c p. p.no_colon)),
      )
      refl

decode_normalized-spelled :
    (u : Bool) (payload : List ℕ)
    → All IsByte payload
    → decode_normalized (spelled u payload) ≡ ok payload
decode_normalized-spelled u [] h = rw (spelled-nil u) refl
decode_normalized-spelled u (b ∷ rest) h =
    let s = spelled u (b ∷ rest) in
    let full : is_empty s ≡ false = rw (spelled-cons u b rest) refl in
    let even : length (text_bytes s) % 2 ≡ 0 =
      rw (plain_bytes s (spelled-IsPlain u (b ∷ rest) h)) (spelled-even u (b ∷ rest)) in
    rw (full, even, decode-spelled u (b ∷ rest) h) refl

-- Bytes that are written as a hexadecimal text without a separator, in small or in capital letters, are
-- read back as they were.
pub from_hex-to_hex :
    (payload : List ℕ) (uppercase : Bool)
    → All IsByte payload
    → (s : Text) × (bytes_to_hex (bytes payload) [] uppercase ≡ ok s)
      × (bytes_from_hex (text s) ≡ ok payload)
unfolding bytes_to_hex bytes_from_hex decode_hex_string
from_hex-to_hex payload u h =
    let s = spelled u payload in
    let p = spelled-IsPlain u payload h in
    (s, refl, rw (normalized-plain s p) (decode_normalized-spelled u payload h))
