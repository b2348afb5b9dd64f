-- ===== src/Pop3Client/AnswerEnds.antt =====
-- pop3client/client.go: the rounds of the loop over the lines of an answer are enough.
use public_golibs.Common.{
  ℕ, zero, suc, ◌-◌, ◌<◌, ◌≢◌, Option, none, some, List, [], ◌∷◌, Text, ◌==◌, length, ltb, text_eq,
  arith, Bool-cases, Option-cases, inl, inr, drop,
}
use public_golibs.Pop3Client.Wire.{
  Result, ok, err, stuck, Conn, max_line_length, read_bytes, get_line, get_resp, single_dot,
  is_stuffed, long_lines, get_long_resp, add_line, response, on_line, with_resp, long_from,
}

-- What is left is shorter, where something was read.
abbrev Shorter : ℕ → Option (Text × Text) → Type 0
Shorter n none = Unit
Shorter n (some (line, rest)) = length rest < n

read_bytes-Shorter : (t : Text) → Shorter (length t) (read_bytes t)
unfolding read_bytes
read_bytes-Shorter [] = tt
read_bytes-Shorter (c ∷ s) =
    let ih = read_bytes-Shorter s in
    elim (Bool-cases (c == 10)) [
      | inl e ↦ rw e (omega arith)
      | inr e ↦ rw e (elim (Option-cases (read_bytes s)) [
        | inl none_left ↦ rw none_left tt
        | inr (r, read) ↦ let ih' = rw read at ih in rw read (omega (arith, ih'))
      ])
    ]

-- A line that was read is shorter than what there was, and reading one ends.
abbrev Taken {ℓ} : {A : Type ℓ} → ℕ → Conn × Result A → Type 0
Taken n (t, ok a) = length t.incoming < n
Taken n (t, err e) = Unit
Taken n (t, stuck) = ⊥

get_line-Taken : (s : Conn) → Taken (length s.incoming) (get_line s)
unfolding get_line
get_line-Taken s =
    let shorter = read_bytes-Shorter s.incoming in
    elim (Option-cases (read_bytes s.incoming)) [
      | inl none_left ↦ simp (none_left) tt
      | inr ((line, rest), read) ↦
          let less : length rest < length s.incoming = rw read at shorter in
          elim (Bool-cases (ltb max_line_length (length line))) [
            | inl long ↦ simp (read, long) tt
            | inr fits ↦ simp (read, fits) less
          ]
    ]

response-Taken : (n : ℕ) (p : Conn × Result (Text × ℕ)) → Taken n p → Taken n (p.0, response p.1)
response-Taken n (t, ok (line, m)) h = ground (arith, h)
response-Taken n (t, err e) h = tt
response-Taken n (t, stuck) h = absurd h

get_resp-Taken : (s : Conn) → Taken (length s.incoming) (get_resp s)
unfolding get_resp
get_resp-Taken s = response-Taken (length s.incoming) (get_line s) (get_line-Taken s)

abbrev Ends {ℓ} : {A : Type ℓ} → Result A → Type 0
Ends (ok a) = Unit
Ends (err e) = Unit
Ends stuck = ⊥

add_line-Ends :
    (line : Text) (n : ℕ) (r : Result (List Text × ℕ)) → Ends r → Ends (add_line line n r)
add_line-Ends line n (ok r) h = tt
add_line-Ends line n (err e) h = tt
add_line-Ends line n stuck h = h

on_line-Ends :
    (rest : Conn → Conn × Result (List Text × ℕ)) (n : ℕ) (p : Conn × Result (Text × ℕ))
    → Taken n p
    → ((t : Conn) → length t.incoming < n → Ends (rest t).1)
    → Ends (on_line rest p).1
on_line-Ends rest n (t, err e) h more = tt
on_line-Ends rest n (t, stuck) h more = h
on_line-Ends rest n (t, ok (line, m)) h more =
    let later = more t h in
    elim (Bool-cases (text_eq line single_dot)) [
      | inl last ↦ rw last tt
      | inr further ↦ rw further (elim (Bool-cases (is_stuffed line)) [
        | inl dots ↦ rw dots (add_line-Ends (drop 1 line) (m - 1) (rest t).1 later)
        | inr plain ↦ rw plain (add_line-Ends line m (rest t).1 later)
      ])
    ]

long_lines-Ends : (fuel : ℕ) (s : Conn) → length s.incoming < fuel → Ends (long_lines fuel s).1
unfolding long_lines
long_lines-Ends zero s h = absurd (omega arith)
long_lines-Ends (suc fuel) s h =
    on_line-Ends (long_lines fuel) (length s.incoming) (get_line s) (get_line-Taken s)
      (λ t l. long_lines-Ends fuel t (omega arith))

with_resp-Ends : (resp : Text) (r : Result (List Text × ℕ)) → Ends r → Ends (with_resp resp r)
with_resp-Ends resp (ok r) h = tt
with_resp-Ends resp (err e) h = tt
with_resp-Ends resp stuck h = h

long_from-Ends : (n : ℕ) (p : Conn × Result Text) → Taken n p → Ends (long_from p).1
long_from-Ends n (s, ok resp) h =
    with_resp-Ends resp (long_lines (suc (length s.incoming)) s).1
      (long_lines-Ends (suc (length s.incoming)) s (omega arith))
long_from-Ends n (s, err e) h = tt
long_from-Ends n (s, stuck) h = h

Ends-ne-stuck {ℓ} : {A : Type ℓ} (r : Result A) → Ends r → r ≢ stuck
Ends-ne-stuck (ok a) h e = cc
Ends-ne-stuck (err x) h e = cc
Ends-ne-stuck stuck h e = h

-- On any finite input the loop never runs out of its rounds.
get_long_resp_ends : (s : Conn) → (get_long_resp s).1 ≢ stuck
unfolding get_long_resp
get_long_resp_ends s =
    Ends-ne-stuck (long_from (get_resp s)).1
      (long_from-Ends (length s.incoming) (get_resp s) (get_resp-Taken s))
