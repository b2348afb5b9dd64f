-- ===== src/Pop3Client/StatTrip.antt =====
-- pop3client/client.go: the answer to STAT.
use public_golibs.Common.{
  ℕ, ◌<◌, ◌≡◌, refl, true, false, none, some, List, [], ◌∷◌, ◌++◌, Text, codes, arith, All, ap, ◌∙◌,
  is_empty, is_space, All-append, ◌≢◌, length-append,
}
use public_golibs.Common.Int.{pos, two63}
use public_golibs.Common.Decimal.{
  format, IsDigit, format-IsDigit, format-is_empty, format-length, value-format,
}
use public_golibs.Common.Split.{Lacks}
use public_golibs.Common.Words.{
  fields, atoi, fields_from-word, fields_from-last, atoi-digits, flush,
}
use public_golibs.Pop3Client.Wire.{
  ok, Conn, Net, Pop3Client, put_line, get_resp, crlf, starts_positive,
}
use public_golibs.Pop3Client.Commands.{stat, short_cmd, after_put, stat_of, stat_result}
use public_golibs.Pop3Client.Framing.{IsLine, get_line-sent}

-- The answer of a server that has n messages of k bytes.
abbrev pub stat_answer : ℕ → ℕ → Text
stat_answer n k = codes "+OK " ++ (format n ++ b' ' ∷ format k)

digits_not_space : (s : Text) → All IsDigit s → All (λ c. is_space c ≡ false) s
unfolding is_space
digits_not_space [] h = tt
digits_not_space (c ∷ s) h = (ground (arith, h.0), digits_not_space s h.1)

digits_one_line : (s : Text) → All IsDigit s → Lacks 10 s
digits_one_line [] h = tt
digits_one_line (c ∷ s) h = (ground (arith, h.0), digits_one_line s h.1)

flush-cons : (w : Text) (words : List Text) → is_empty w ≡ false → flush w words ≡ w ∷ words
flush-cons [] words h = cc
flush-cons (c ∷ w) words h = refl

fields-stat_answer : (n k : ℕ) → fields (stat_answer n k) ≡ codes "+OK" ∷ format n ∷ format k ∷ []
unfolding fields is_space
fields-stat_answer n k =
    let first = digits_not_space (format n) (format-IsDigit n) in
    let second = digits_not_space (format k) (format-IsDigit k) in
    rw
      (
        fields_from-word [] (format n) (format k) 32 first refl,
        fields_from-last [] (format k) second,
        flush-cons (format k) [] (format-is_empty k),
        flush-cons (format n) (format k ∷ []) (format-is_empty n),
      )
      refl

stat_answer-IsLine : (n k : ℕ) → n < two63 → k < two63 → IsLine (stat_answer n k)
stat_answer-IsLine n k hn hk = record {
  one_line =
      All-append (λ c. c ≢ 10) (codes "+OK ") (format n ++ b' ' ∷ format k) (ground arith)
        (All-append (λ c. c ≢ 10) (format n) (b' ' ∷ format k)
          (digits_one_line (format n) (format-IsDigit n))
          (ground arith, digits_one_line (format k) (format-IsDigit k)));
  no_return = refl;
  short = omega (
    arith,
    length-append (format n) (b' ' ∷ format k),
    format-length n 18 (omega arith),
    format-length k 18 (omega arith),
  );
}

atoi-format : (n : ℕ) → n < two63 → atoi (format n) ≡ some (pos n)
atoi-format n h =
    rw
      (
        atoi-digits (format n) (format-IsDigit n) (format-is_empty n) (rw (value-format n) h),
        value-format n,
      )
      refl

put_line-written :
    (net : Net) (line : Text) (c : Pop3Client) (s : Conn)
    → c.conn ≡ some s
    → net.write_error (line ++ crlf) ≡ none
    → put_line net line c
      ≡ (record c { conn = some (record s { sent = s.sent ++ (line ++ crlf) }) }, ok tt)
unfolding put_line
put_line-written net line c s held writes = simp (held, writes) refl

-- A command that the network takes is sent as one line behind what was sent before, and its result is the
-- line of the answer, which is positive and which the protocol can carry; what comes after is left to be
-- read.
pub short_cmd-answered :
    (net : Net) (line resp rest : Text) (c : Pop3Client) (s : Conn)
    → c.conn ≡ some s
    → net.write_error (line ++ crlf) ≡ none
    → IsLine resp
    → starts_positive resp ≡ true
    → s.incoming ≡ resp ++ 13 ∷ 10 ∷ rest
    → short_cmd net line c ≡ (
      record c { conn = some (record s { sent = s.sent ++ (line ++ crlf); incoming = rest }) },
      ok resp,
    )
unfolding short_cmd get_resp
short_cmd-answered net line resp rest c s held writes is_line positive answer =
    let next = record s { sent = s.sent ++ (line ++ crlf) } in
    ap (after_put get_resp) (put_line-written net line c s held writes)
    ∙ simp (get_line-sent next resp rest is_line answer, positive) refl

-- Where the server answers STAT with two numbers, Stat sends the command, and returns them; nothing is
-- left of the answer. The numbers are those of an int, and the network takes what is written.
pub stat-stat_answer :
    (net : Net) (c : Pop3Client) (s : Conn) (n k : ℕ) (rest : Text)
    → c.conn ≡ some s
    → net.write_error (codes "STAT" ++ crlf) ≡ none
    → s.incoming ≡ stat_answer n k ++ 13 ∷ 10 ∷ rest
    → n < two63
    → k < two63
    → stat net c ≡ (
      record c {
        conn = some (record s { sent = s.sent ++ (codes "STAT" ++ crlf); incoming = rest });
      },
      ok (pos n, pos k),
    )
unfolding stat
stat-stat_answer net c s n k rest held writes answer hn hk =
    ap (λ p. (p.0, stat_result p.1))
      (short_cmd-answered net (codes "STAT") (stat_answer n k) rest c s held writes
        (stat_answer-IsLine n k hn hk) refl answer)
    ∙ ap
        (λ r. (
          record c {
            conn = some (record s { sent = s.sent ++ (codes "STAT" ++ crlf); incoming = rest });
          },
          stat_of (stat_answer n k) r,
        ))
        (fields-stat_answer n k)
    ∙ rw (atoi-format n hn, atoi-format k hk) refl
