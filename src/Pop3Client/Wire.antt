-- ===== src/Pop3Client/Wire.antt =====
-- pop3client/client.go: lines over a connection. A byte is a number and a text is its bytes. What the
-- other side sends is the rest of the connection's input; where a read finds no end of line, the
-- connection fails. What else the network may refuse is an argument.
use public_golibs.Common.{
  ℕ, zero, suc, ◌+◌, ◌-◌, Bool, false, ◌&&◌, Option, none, some, List, [], ◌∷◌, ◌++◌, Text, codes,
  if◌then◌else◌, ◌==◌, length, ltb, text_eq, take, drop,
}
use public_golibs.Common.Int.{ℤ}
use public_golibs.Common.Words.{trim_suffix}

pub data Error : Type 0 where
  closed unsupported_email_type empty_host : Error
  protocol : Text → Error
  network : Text → Error
  syntax : Text → Error
  plain : Text → Error

-- `stuck` is no value of the program: a loop ran out of fuel.
pub data Result {ℓ} (A : Type ℓ) : Type ℓ where
  ok : A → Result A
  err : Error → Result A
  stuck : Result A

-- The bytes that were written, and those that are still to be read.
pub record Conn : Type 0 where
  pub sent : Text
  pub incoming : Text
  pub is_tls : Bool

pub record TlsConfig : Type 0 where
  pub server_name : Text
  pub insecure_skip_verify : Bool

-- The answers of the network to the writes, the closing and the handshake of one call. A write that
-- fails may have written some bytes. The handshake fails, or what comes next is read through it.
pub record Net : Type 0 where
  pub write_error : Text → Option (ℕ × Text)
  pub close_error : Option Text
  pub handshake : TlsConfig → Option Text × Text

pub record ProxyConfig : Type 0 where
  pub kind : Text
  pub host : Text
  pub port : ℤ
  pub username : Text
  pub password : Text

pub record Pop3Client : Type 0 where
  pub host : Text
  pub port : ℤ
  pub timeout : ℤ
  pub proxy : ProxyConfig
  pub tls_config : Option TlsConfig
  pub insecure_skip_verify : Bool
  pub conn : Option Conn
  pub welcome : Text
  pub tls_established : Bool
  pub implicit_tls : Bool

abbrev pub max_line_length : ℕ
max_line_length = 102400

abbrev pub crlf : Text
crlf = 13 ∷ 10 ∷ []

abbrev with_sent : Text → Conn → Pop3Client → Pop3Client
with_sent line s c = record c { conn = some (record s { sent = s.sent ++ line }) }

abbrev pub written : Text → Option (ℕ × Text) → Conn → Pop3Client → Pop3Client × Result (Unit {0})
written line none s c = (with_sent line s c, ok tt)
written line (some (n, e)) s c = (with_sent (take n line) s c, err (network e))

abbrev pub put_on : Net → Text → Option Conn → Pop3Client → Pop3Client × Result (Unit {0})
put_on net line none c = (c, err closed)
put_on net line (some s) c = written line (net.write_error line) s c

unfoldable pub put_line : Net → Text → Pop3Client → Pop3Client × Result (Unit {0})
put_line net line c = put_on net (line ++ crlf) c.conn c

abbrev longer : ℕ → Option (Text × Text) → Option (Text × Text)
longer c none = none
longer c (some (line, rest)) = some (c ∷ line, rest)

-- bufio's ReadBytes('\n'): the line with its end, and the rest.
unfoldable pub read_bytes : Text → Option (Text × Text)
read_bytes [] = none
read_bytes (c ∷ s) =
    let more = longer c (read_bytes s) in if c == 10 then some (c ∷ [], s) else more

abbrev pub without_return : Text → Text
without_return [] = []
without_return (c ∷ s) = if c == 13 then s else c ∷ s

unfoldable pub strip : Text → Text
unfolding trim_suffix
strip line = without_return (trim_suffix 13 (trim_suffix 10 line))

abbrev read_line : Option (Text × Text) → Conn → Conn × Result (Text × ℕ)
read_line none s = (record s { incoming = [] }, err (network (codes "EOF")))
read_line (some (line, rest)) s = (
  record s { incoming = rest },
  if ltb max_line_length (length line)
      then err (protocol (codes "line too long"))
      else ok (strip line, length line),
)

unfoldable pub get_line : Conn → Conn × Result (Text × ℕ)
unfolding read_bytes strip
get_line s = read_line (read_bytes s.incoming) s

abbrev pub starts_positive : Text → Bool
starts_positive [] = false
starts_positive (c ∷ s) = c == b'+'

abbrev pub response : Result (Text × ℕ) → Result Text
response (ok (line, n)) = if starts_positive line then ok line else err (protocol line)
response (err e) = err e
response stuck = stuck

unfoldable pub get_resp : Conn → Conn × Result Text
unfolding get_line
get_resp s = let (t, r) = get_line s in (t, response r)

abbrev pub LongResp : Type 0
LongResp = Text × List Text × ℕ

abbrev pub single_dot : Text
single_dot = b'.' ∷ []

abbrev pub is_stuffed : Text → Bool
is_stuffed [] = false
is_stuffed (c ∷ []) = false
is_stuffed (c ∷ d ∷ s) = c == b'.' && d == b'.'

-- The loop of getLongResp, on fuel.
abbrev pub add_line : Text → ℕ → Result (List Text × ℕ) → Result (List Text × ℕ)
add_line line n (ok (lines, octets)) = ok (line ∷ lines, n + octets)
add_line line n (err e) = err e
add_line line n stuck = stuck

abbrev pub on_line :
    (Conn → Conn × Result (List Text × ℕ))
    → Conn × Result (Text × ℕ)
    → Conn × Result (List Text × ℕ)
on_line rest (s, err e) = (s, err e)
on_line rest (s, stuck) = (s, stuck)
on_line rest (s, ok (line, n)) =
    let (t, r) = rest s in
    if text_eq line single_dot
    then (s, ok ([], 0))
    else if is_stuffed line
    then (t, add_line (drop 1 line) (n - 1) r)
    else (t, add_line line n r)

unfoldable pub long_lines : ℕ → Conn → Conn × Result (List Text × ℕ)
unfolding get_line
long_lines zero s = (s, stuck)
long_lines (suc fuel) s = on_line (long_lines fuel) (get_line s)

abbrev pub with_resp : Text → Result (List Text × ℕ) → Result LongResp
with_resp resp (ok (lines, octets)) = ok (resp, lines, octets)
with_resp resp (err e) = err e
with_resp resp stuck = stuck

abbrev pub long_from : Conn × Result Text → Conn × Result LongResp
long_from (s, err e) = (s, err e)
long_from (s, stuck) = (s, stuck)
long_from (s, ok resp) =
    let (t, r) = long_lines (suc (length s.incoming)) s in (t, with_resp resp r)

-- Each round takes a byte at least, so a round more than there are bytes is enough.
unfoldable pub get_long_resp : Conn → Conn × Result LongResp
unfolding get_resp long_lines
get_long_resp s = long_from (get_resp s)
