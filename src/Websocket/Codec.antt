-- ===== src/Websocket/Codec.antt =====
-- websocket/codec.go: bytes as hexadecimal texts. A byte is a number, and separators are ASCII texts.
use public_golibs.Common.{
  ℕ, ◌+◌, ◌-◌, ◌*◌, ◌/◌, ◌%◌, Bool, ◌&&◌, not, Option, none, some, List, [], ◌∷◌, ◌++◌, Text,
  if◌then◌else◌, length, ltb, leb, ◌==◌, is_empty, trim_space,
}

pub data Value : Type 0 where
  bytes : List ℕ → Value
  text : Text → Value
  other : Value

pub data Error : Type 0 where
  not_text_or_bytes odd_digits not_hex : Error

pub data Result {ℓ} (A : Type ℓ) : Type ℓ where
  ok : A → Result A
  err : Error → Result A

-- The bytes of a text in UTF-8.
abbrev char_bytes : ℕ → List ℕ
char_bytes c =
    if ltb c 0x80
    then c ∷ []
    else if ltb c 0x800
    then (0xC0 + c / 64) ∷ (0x80 + c % 64) ∷ []
    else if ltb c 0x10000
    then (0xE0 + c / 4096) ∷ (0x80 + c / 64 % 64) ∷ (0x80 + c % 64) ∷ []
    else (0xF0 + c / 262144) ∷ (0x80 + c / 4096 % 64) ∷ (0x80 + c / 64 % 64) ∷ (0x80 + c % 64) ∷ []

abbrev pub text_bytes : Text → List ℕ
text_bytes [] = []
text_bytes (c ∷ s) = char_bytes c ++ text_bytes s

abbrev pub hex_digit : ℕ → ℕ
hex_digit n = if ltb n 10 then b'0' + n else b'a' + (n - 10)

-- hex.EncodeToString
unfoldable pub encode_to_string : List ℕ → Text
encode_to_string [] = []
encode_to_string (b ∷ payload) = hex_digit (b / 16) ∷ hex_digit (b % 16) ∷ encode_to_string payload

-- strings.Join of the pairs of digits
unfoldable pub join_pairs : Text → Text → Text
join_pairs separator [] = []
join_pairs separator (c ∷ []) = c ∷ []
join_pairs separator (c ∷ d ∷ []) = c ∷ d ∷ []
join_pairs separator (c ∷ d ∷ e ∷ s) = (c ∷ d ∷ separator) ++ join_pairs separator (e ∷ s)

abbrev pub upper : ℕ → ℕ
upper c = if leb b'a' c && leb c b'z' then c - 32 else c

abbrev pub to_upper : Text → Text
to_upper [] = []
to_upper (c ∷ s) = upper c ∷ to_upper s

abbrev separated : Text → Text → Text
separated separator result =
    if not (is_empty separator) && ltb 2 (length result)
    then join_pairs separator result
    else result

abbrev pub hex_of : List ℕ → Text → Bool → Text
hex_of payload separator uppercase =
    let result = separated separator (encode_to_string payload) in
    if uppercase then to_upper result else result

unfoldable pub bytes_to_hex : Value → Text → Bool → Result Text
unfolding encode_to_string join_pairs
bytes_to_hex (bytes payload) separator uppercase = ok (hex_of payload separator uppercase)
bytes_to_hex (text s) separator uppercase = ok (hex_of (text_bytes s) separator uppercase)
bytes_to_hex other separator uppercase = err not_text_or_bytes

-- strings.ReplaceAll of one character by nothing
unfoldable pub without_char : ℕ → Text → Text
without_char x [] = []
without_char x (c ∷ s) = let rest = without_char x s in if c == x then rest else c ∷ rest

-- strings.ReplaceAll of two characters by nothing
unfoldable pub without_pair : ℕ → ℕ → Text → Text
without_pair x y [] = []
without_pair x y (c ∷ []) = c ∷ []
without_pair x y (c ∷ d ∷ s) =
    let skipped = without_pair x y s in
    let kept = without_pair x y (d ∷ s) in if c == x && d == y then skipped else c ∷ kept

abbrev pub without_prefixes : Text → Text
without_prefixes s = without_pair b'0' b'X' (without_pair b'0' b'x' s)

abbrev pub without_spaces : Text → Text
without_spaces s = without_char 9 (without_char 13 (without_char 10 (without_char b' ' s)))

abbrev pub without_marks : Text → Text
without_marks s = without_char b':' (without_char b'-' s)

unfoldable pub normalized : Text → Text
normalized s = without_marks (without_spaces (without_prefixes (trim_space s)))

abbrev pub hex_value : ℕ → Option ℕ
hex_value c =
    if leb b'0' c && leb c b'9'
    then some (c - b'0')
    else if leb b'a' c && leb c b'f'
    then some (c - b'a' + 10)
    else if leb b'A' c && leb c b'F'
    then some (c - b'A' + 10)
    else none

abbrev pub onto_result : Option ℕ → Option ℕ → Option (List ℕ) → Option (List ℕ)
onto_result (some a) (some b) (some rest) = some ((a * 16 + b) ∷ rest)
onto_result a b rest = none

-- hex.DecodeString of a text of an even length
unfoldable pub decode_string : Text → Option (List ℕ)
decode_string [] = some []
decode_string (c ∷ []) = none
decode_string (c ∷ d ∷ s) = onto_result (hex_value c) (hex_value d) (decode_string s)

abbrev decoded : Option (List ℕ) → Result (List ℕ)
decoded none = err not_hex
decoded (some payload) = ok payload

abbrev pub decode_normalized : Text → Result (List ℕ)
decode_normalized s =
    if is_empty s
    then ok []
    else if not (length (text_bytes s) % 2 == 0)
    then err odd_digits
    else decoded (decode_string s)

unfoldable pub decode_hex_string : Text → Result (List ℕ)
unfolding normalized decode_string
decode_hex_string value = decode_normalized (normalized value)

unfoldable pub bytes_from_hex : Value → Result (List ℕ)
unfolding decode_hex_string
bytes_from_hex (bytes payload) = ok payload
bytes_from_hex (text s) = decode_hex_string s
bytes_from_hex other = err not_text_or_bytes
