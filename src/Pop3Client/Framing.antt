-- ===== src/Pop3Client/Framing.antt =====
-- pop3client/client.go: answers of several lines are read as they were sent.
use public_golibs.Common.{
  ℕ, zero, suc, ◌+◌, ◌-◌, ◌≤◌, ◌<◌, ◌≡◌, ◌≢◌, refl, true, false, some, List, [], ◌∷◌, ◌++◌, Text,
  if◌then◌else◌, ◌==◌, length, ltb, text_eq, arith, ==_iff, Bool-cases, inl, inr, All, All-append,
  append_assoc, drop, length-append, ap,
}
use public_golibs.Common.Split.{Lacks}
use public_golibs.Common.Words.{trim_suffix}
use public_golibs.Pop3Client.Wire.{
  Result, ok, Conn, max_line_length, read_bytes, without_return, strip, get_line, starts_positive,
  get_resp, single_dot, is_stuffed, long_lines, get_long_resp, add_line,
}

-- A line that the protocol can carry.
pub record IsLine (line : Text) : Type 0 where
  pub one_line : Lacks 10 line
  pub no_return : without_return line ≡ line
  pub short : length line + 2 ≤ max_line_length

abbrev pub dot_stuffed : Text → Text
dot_stuffed [] = []
dot_stuffed (c ∷ s) = if c == b'.' then b'.' ∷ c ∷ s else c ∷ s

-- What a server sends for the lines of a message, and what comes after it.
pub send_lines : List Text → Text → Text
send_lines [] rest = b'.' ∷ 13 ∷ 10 ∷ rest
send_lines (line ∷ lines) rest = dot_stuffed line ++ 13 ∷ 10 ∷ send_lines lines rest

abbrev pub octets : List Text → ℕ
octets [] = 0
octets (line ∷ lines) = length line + 2 + octets lines

read_bytes-append :
    (line rest : Text)
    → Lacks 10 line
    → read_bytes (line ++ 10 ∷ rest) ≡ some (line ++ 10 ∷ [], rest)
unfolding read_bytes
read_bytes-append [] rest l = refl
read_bytes-append (c ∷ s) rest l = ground (arith, read_bytes-append s rest l.1)

trim_suffix-append : (x : ℕ) (s : Text) → trim_suffix x (s ++ x ∷ []) ≡ s
unfolding trim_suffix
trim_suffix-append x [] = ground arith
trim_suffix-append x (c ∷ []) = ground (arith)
trim_suffix-append x (c ∷ d ∷ s) = ap (λ t. c ∷ t) (trim_suffix-append x (d ∷ s))

strip-crlf :
    (line : Text) → without_return line ≡ line → strip ((line ++ 13 ∷ []) ++ 10 ∷ []) ≡ line
unfolding strip
strip-crlf line h = rw (trim_suffix-append 10 (line ++ 13 ∷ []), trim_suffix-append 13 line) h

pub get_line-sent :
    (s : Conn) (line rest : Text)
    → IsLine line
    → s.incoming ≡ line ++ 13 ∷ 10 ∷ rest
    → get_line s ≡ (record s { incoming = rest }, ok (line, length line + 2))
unfolding get_line
get_line-sent s line rest v e =
    let w = line ++ 13 ∷ [] in
    let lacks : Lacks 10 w = All-append (λ c. c ≢ 10) line (13 ∷ []) v.one_line (ground arith) in
    let whole : w ++ 10 ∷ rest ≡ line ++ 13 ∷ 10 ∷ rest = append_assoc line (13 ∷ []) (10 ∷ rest) in
    let read : read_bytes s.incoming ≡ some (w ++ 10 ∷ [], rest) =
      rw (e, ← whole) (read_bytes-append w rest lacks) in
    let len : length (w ++ 10 ∷ []) ≡ length line + 2 =
      omega (arith, length-append w (10 ∷ []), length-append line (13 ∷ [])) in
    let fits : ltb max_line_length (length line + 2) ≡ false = ground (arith, v.short) in
    simp (read, strip-crlf line v.no_return, len, fits) refl

single_dot-IsLine : IsLine single_dot
single_dot-IsLine = record { one_line = ground arith; no_return = refl; short = omega arith }

two_dots : (x : ℕ) (s : Text) → text_eq (b'.' ∷ x ∷ s) single_dot ≡ false
unfolding text_eq
two_dots x s = refl

not_dot : (x : ℕ) (s : Text) → (x == b'.') ≡ false → text_eq (x ∷ s) single_dot ≡ false
unfolding text_eq
not_dot x s h = rw h refl

unstuffed : (x : ℕ) (s : Text) → (x == b'.') ≡ false → is_stuffed (x ∷ s) ≡ false
unstuffed x [] h = refl
unstuffed x (d ∷ s) h = rw h refl

-- A stuffed line is not the end, and the loop makes of it what it was.
dot_stuffed-read :
    (line : Text) (r : Result (List Text × ℕ)) (c t : Conn)
    → ◌≡◌ {A = Conn × Result (List Text × ℕ)}
        (if text_eq (dot_stuffed line) single_dot
          then (c, ok ([], 0))
          else if is_stuffed (dot_stuffed line)
          then (t, add_line (drop 1 (dot_stuffed line)) (length (dot_stuffed line) + 2 - 1) r)
          else (t, add_line (dot_stuffed line) (length (dot_stuffed line) + 2) r))
        (t, add_line line (length line + 2) r)
dot_stuffed-read [] r c t = unfold text_eq in refl
dot_stuffed-read (x ∷ s) r c t = elim (Bool-cases (x == b'.')) [
  | inl dot ↦
      let is_dot : x ≡ b'.' = (==_iff x b'.').0 dot in
      let len : suc (suc (length s)) + 2 - 1 ≡ suc (length s) + 2 = omega arith in
      rw (is_dot, two_dots b'.' s, len) refl
  | inr plain ↦ rw (plain, not_dot x s plain, unstuffed x s plain) refl
]

long_lines-sent :
    (lines : List Text) (fuel : ℕ) (s : Conn) (rest : Text)
    → All (λ line. IsLine (dot_stuffed line)) lines
    → length lines < fuel
    → s.incoming ≡ send_lines lines rest
    → long_lines fuel s ≡ (record s { incoming = rest }, ok (lines, octets lines))
unfolding long_lines
long_lines-sent lines zero s rest v h e = absurd (omega arith)
long_lines-sent [] (suc fuel) s rest v h e =
    rw (get_line-sent s single_dot rest single_dot-IsLine (unfold send_lines in e))
      (unfold text_eq in refl)
long_lines-sent (line ∷ lines) (suc fuel) s rest v h e =
    let next = record s { incoming = send_lines lines rest } in
    rw
      (
        get_line-sent s (dot_stuffed line) (send_lines lines rest) v.0 (unfold send_lines in e),
        long_lines-sent lines fuel next rest v.1 (omega arith) refl,
        dot_stuffed-read line (ok (lines, octets lines)) next (record s { incoming = rest }),
      )
      refl

length-send_lines :
    (lines : List Text) (rest : Text) → length lines < length (send_lines lines rest)
unfolding send_lines
length-send_lines [] rest = omega arith
length-send_lines (line ∷ lines) rest = omega (
  arith,
  length-append (dot_stuffed line) (13 ∷ 10 ∷ send_lines lines rest),
  length-send_lines lines rest,
)

-- The answer to a command of several lines is read as it was sent: the first line, which is positive, and
-- all lines of the message, with the dots that the server put before them taken away, and the number of
-- their bytes; what comes after the answer is left to be read. Each line, as it is sent, is one without a
-- line feed, does not begin with a carriage return, and is not too long.
pub get_long_resp-send_lines :
    (s : Conn) (resp : Text) (lines : List Text) (rest : Text)
    → IsLine resp
    → starts_positive resp ≡ true
    → All (λ line. IsLine (dot_stuffed line)) lines
    → s.incoming ≡ resp ++ 13 ∷ 10 ∷ send_lines lines rest
    → get_long_resp s ≡ (record s { incoming = rest }, ok (resp, lines, octets lines))
unfolding get_long_resp get_resp
get_long_resp-send_lines s resp lines rest l p v e =
    let body = send_lines lines rest in
    let next = record s { incoming = body } in
    let enough : length lines < suc (length body) = omega (arith, length-send_lines lines rest) in
    rw
      (
        get_line-sent s resp body l e,
        p,
        long_lines-sent lines (suc (length body)) next rest v enough refl,
      )
      refl
