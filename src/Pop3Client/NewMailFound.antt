-- ===== src/Pop3Client/NewMailFound.antt =====
-- pop3client/email_client.go: which mail GetNewEmail gives.
use public_golibs.Common.{
  ◌≡◌, refl, ◌⊎◌, inl, inr, true, false, Bool, ◌&&◌, ◌||◌, none, some, [], ◌∷◌, ◌++◌, Text,
  Bool-cases, arith, is_empty, ◌==◌, ==_iff, if◌then◌else◌,
}
use public_golibs.Common.Int.{ℤ, leb_ℤ, ◌<ℤ◌}
use public_golibs.Common.Words.{has_prefix, contains}
use public_golibs.Pop3Client.Wire.{Result, ok, err, stuck, Net}
use public_golibs.Pop3Client.Email.{EmailClient, World, Done, get_email_stats, reconnect}
use public_golibs.Pop3Client.Message.{EmailInfo, Mime}
use public_golibs.Pop3Client.NewMail.{
  get_email_content, get_new_email, email_matches, filter_of, hits, latest, once_connected,
  matching,
}

-- The word stands somewhere in the text.
abbrev pub Contains : Text → Text → Type 0
Contains word text = (front : Text) × (back : Text) × (text ≡ front ++ word ++ back)

has_prefix-Contains : (t p : Text) → has_prefix t p ≡ true → (back : Text) × (t ≡ p ++ back)
unfolding has_prefix
has_prefix-Contains t [] h = (t, refl)
has_prefix-Contains [] (c ∷ p) h = cc
has_prefix-Contains (d ∷ t) (c ∷ p) h = elim (Bool-cases (d == c)) [
  | inl e ↦
      let rest : has_prefix t p ≡ true = rw e at h in
      let (back, g) = has_prefix-Contains t p rest in (back, rw ((==_iff d c).0 e, g) refl)
  | inr e ↦ let wrong : false ≡ true = rw e at h in cc
]

contains-Contains : (t p : Text) → contains t p ≡ true → Contains p t
unfolding contains
contains-Contains [] [] h = ([], [], refl)
contains-Contains [] (c ∷ p) h = cc
contains-Contains (c ∷ t) p h = elim (Bool-cases (has_prefix (c ∷ t) p)) [
  | inl e ↦ let (back, g) = has_prefix-Contains (c ∷ t) p e in ([], back, g)
  | inr e ↦
      let rest : contains t p ≡ true = rw e at h in
      let (front, back, g) = contains-Contains t p rest in (c ∷ front, back, rw g refl)
]

-- A filter that is not blank stands in the field, whatever the case of the letters.
abbrev pub Found : Mime → Text → Text → Type 0
Found m filter field =
    (is_empty (filter_of m filter) ≡ false) × Contains (filter_of m filter) (m.to_lower field)

-- Both filters are blank, or the one is found in the sender or the other in the subject.
abbrev pub Wanted : Mime → Text → Text → EmailInfo → Type 0
Wanted m from_filter subject_filter info =
    ((is_empty (filter_of m from_filter) ≡ true) × (is_empty (filter_of m subject_filter) ≡ true))
    ⊎ (Found m from_filter info.from ⊎ Found m subject_filter info.subject)

hits-Found :
    (m : Mime) (filter field : Text)
    → hits m (filter_of m filter) field ≡ true
    → Found m filter field
hits-Found m filter field h =
    let word = filter_of m filter in
    let lowered = m.to_lower field in
    elim (Bool-cases (is_empty word)) [
      | inl e ↦ let wrong : false ≡ true = rw e at h in cc
      | inr e ↦
          let there : contains lowered word ≡ true = rw e at h in
          (e, contains-Contains lowered word there)
    ]

either_hit :
    (a b c d : Bool)
    → (if a && b then true else (c || d)) ≡ true
    → ((a ≡ true) × (b ≡ true)) ⊎ ((c ≡ true) ⊎ (d ≡ true))
either_hit a b c d h = ground arith

email_matches-Wanted :
    (m : Mime) (f s : Text) (info : EmailInfo) → email_matches m info f s ≡ true → Wanted m f s info
unfolding email_matches
email_matches-Wanted m f s info h =
    elim (either_hit (is_empty (filter_of m f)) (is_empty (filter_of m s))
      (hits m (filter_of m f) info.from) (hits m (filter_of m s) info.subject) h) [
        | inl blank ↦ inl blank
        | inr (inl hit) ↦ inr (inl (hits-Found m f info.from hit))
        | inr (inr hit) ↦ inr (inr (hits-Found m s info.subject hit))
      ]

-- The server counts more mails than at first, and the last of them is this one, which was asked for.
pub record LatestOf (m : Mime) (count_net net : Net) (c : EmailClient) (info : EmailInfo)
    : Type 0 where
  pub counting : EmailClient
  pub count : ℤ
  pub size : ℤ
  pub counted : get_email_stats count_net c ≡ (counting, ok (count, size))
  pub newer : counting.initial_email_count <ℤ count
  pub is_last : (get_email_content m net count counting).1 ≡ ok info

matching-some :
    (m : Mime) (f s : Text) (r : Result EmailInfo) (info : EmailInfo)
    → matching m f s r ≡ ok (some info)
    → (r ≡ ok info) × (email_matches m info f s ≡ true)
matching-some m f s (ok i) info e = elim (Bool-cases (email_matches m i f s)) [
  | inl hit ↦
      let found : ok (some i) ≡ ok (some info) = rw hit at e in
      let same : i ≡ info = cc in (rw same refl, rw (← same) hit)
  | inr miss ↦ let found : ok none ≡ ok (some info) = rw miss at e in cc
]
matching-some m f s (err x) info e = cc
matching-some m f s stuck info e = cc

not_leb : (a b : ℤ) → leb_ℤ a b ≡ false → b <ℤ a
not_leb a b h = ground arith

module _ (m : Mime) (count_net net : Net) (f s : Text) (info : EmailInfo) where
  latest-LatestOf :
      (c : EmailClient) (p : EmailClient × Result (ℤ × ℤ))
      → get_email_stats count_net c ≡ p
      → (latest m net f s p).1 ≡ ok (some info)
      → LatestOf m count_net net c info × Wanted m f s info
  latest-LatestOf c (d, ok (count, size)) g e =
      elim (Bool-cases (leb_ℤ count d.initial_email_count)) [
        | inl old ↦ let nothing : ok none ≡ ok (some info) = rw old at e in cc
        | inr newer ↦
            let found = rw newer at e in
            let (last, hit) = matching-some m f s (get_email_content m net count d).1 info found in
            (
              record {
                counting = d;
                count = count;
                size = size;
                counted = g;
                newer = not_leb count d.initial_email_count newer;
                is_last = last;
              },
              email_matches-Wanted m f s info hit,
            )
      ]
  latest-LatestOf c (d, err x) g e = cc
  latest-LatestOf c (d, stuck) g e = cc

  once_connected-LatestOf :
      (p : Done)
      → (once_connected m count_net net f s p).1 ≡ ok (some info)
      → (p.1 ≡ ok tt) × LatestOf m count_net net p.0 info × Wanted m f s info
  once_connected-LatestOf (c, ok u) e =
      let (last, hit) = latest-LatestOf c (get_email_stats count_net c) refl e in (refl, last, hit)
  once_connected-LatestOf (c, err x) e = cc
  once_connected-LatestOf (c, stuck) e = cc

-- When GetNewEmail gives a mail, connecting anew succeeded; the server then counted more mails than there
-- were at first; the mail is the one that was read and parsed under that count, the last; and a filter that
-- is not blank stands in its sender or its subject, where letters count as small ones, or both are blank.
pub get_new_email-LatestOf :
    (m : Mime) (close_net : Net) (w : World) (count_net mail_net : Net)
    (from_filter subject_filter : Text) (c : EmailClient) (info : EmailInfo)
    → (get_new_email m close_net w count_net mail_net from_filter subject_filter c).1
      ≡ ok (some info)
    → ((reconnect close_net w c).1 ≡ ok tt)
      × LatestOf m count_net mail_net (reconnect close_net w c).0 info
      × Wanted m from_filter subject_filter info
unfolding get_new_email
get_new_email-LatestOf m close_net w count_net mail_net f s c info e =
    once_connected-LatestOf m count_net mail_net f s info (reconnect close_net w c) e
