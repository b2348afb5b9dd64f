-- ===== src/Pop3Client/Bodies.antt =====
-- pop3client/message.go: what ParseEmail finds.
use public_golibs.Common.{
  suc, ◌≡◌, refl, ap, sym, ◌∙◌, Bool, true, false, List, [], ◌∷◌, ◌++◌, Text, codes, if◌then◌else◌,
  length, is_empty, trim_space, inl, inr, Bool-cases, append_assoc,
}
use public_golibs.Common.Split.{join}
use public_golibs.Pop3Client.Wire.{ok, err, stuck}
use public_golibs.Pop3Client.Message.{
  EmailInfo, Header, Content, Mime, append_text, Parsed, add_text, parse_mime_entity, info_of,
  decode_mime_header, finished, parse_read, parse_email,
}
use public_golibs.Pop3Client.Texts.{Texts, texts, of_kind, add_all, Has, parse_mime_entity-Has}

join_from : Text → List Text → Text
join_from existing [] = existing
join_from existing (t ∷ ts) = join_from (if is_empty existing then t else existing ++ 10 ∷ t) ts

join_from-join :
    (e : Text) (ts : List Text) → is_empty e ≡ false → join_from e ts ≡ join 10 (e ∷ ts)
unfolding join_from join
join_from-join e [] h = refl
join_from-join [] (t ∷ ts) h = cc
join_from-join (c ∷ e) (t ∷ []) h = refl
join_from-join (c ∷ e) (t ∷ u ∷ us) h =
    rw (join_from-join (c ∷ e ++ 10 ∷ t) (u ∷ us) refl)
      (append_assoc (c ∷ e) (10 ∷ t) (10 ∷ join 10 (u ∷ us)))

not_blank : (t : Text) → is_empty (trim_space t) ≡ false → is_empty t ≡ false
unfolding trim_space
not_blank [] h = h
not_blank (c ∷ t) h = refl

append_text-join :
    (e t : Text) (ts : List Text)
    → join_from (append_text e t) ts ≡ join_from e (if is_empty (trim_space t) then ts else t ∷ ts)
unfolding join_from append_text
append_text-join e t ts = elim (Bool-cases (is_empty (trim_space t))) [
  | inl blank ↦ rw blank refl
  | inr shown ↦ rw shown refl
]

add_all-kept :
    (ts : Texts) (info : EmailInfo)
    → ((add_all ts info).body ≡ join_from info.body (of_kind false ts))
      × ((add_all ts info).html_body ≡ join_from info.html_body (of_kind true ts))
unfolding add_all join_from
add_all-kept [] info = (refl, refl)
add_all-kept ((true, t) ∷ ts) info =
    let (plain, html) = add_all-kept ts (add_text true t info) in
    (plain, html ∙ append_text-join info.html_body t (of_kind true ts))
add_all-kept ((false, t) ∷ ts) info =
    let (plain, html) = add_all-kept ts (add_text false t info) in
    (plain ∙ append_text-join info.body t (of_kind false ts), html)

put-join :
    (t : Text) (ts : List Text)
    → join_from [] ts ≡ join 10 ts
    → ◌≡◌ {A = Text}
        (join_from [] (if is_empty (trim_space t) then ts else t ∷ ts))
        (join 10 (if is_empty (trim_space t) then ts else t ∷ ts))
unfolding join_from
put-join t ts h = elim (Bool-cases (is_empty (trim_space t))) [
  | inl blank ↦ rw blank h
  | inr shown ↦ rw shown (join_from-join t ts (not_blank t shown))
]

of_kind-join :
    (html : Bool) (ts : Texts) → join_from [] (of_kind html ts) ≡ join 10 (of_kind html ts)
unfolding join_from join
of_kind-join true [] = refl
of_kind-join false [] = refl
of_kind-join true ((true, t) ∷ ts) = put-join t (of_kind true ts) (of_kind-join true ts)
of_kind-join true ((false, t) ∷ ts) = of_kind-join true ts
of_kind-join false ((true, t) ∷ ts) = of_kind-join false ts
of_kind-join false ((false, t) ∷ ts) = put-join t (of_kind false ts) (of_kind-join false ts)

add_all-headers :
    (ts : Texts) (info : EmailInfo)
    → ((add_all ts info).from ≡ info.from)
      × ((add_all ts info).to ≡ info.to)
      × ((add_all ts info).subject ≡ info.subject)
      × ((add_all ts info).date ≡ info.date)
unfolding add_all
add_all-headers [] info = (refl, refl, refl, refl)
add_all-headers ((true, t) ∷ ts) info = add_all-headers ts (add_text true t info)
add_all-headers ((false, t) ∷ ts) info = add_all-headers ts (add_text false t info)

-- The mail that has these headers and texts.
pub record IsMail (m : Mime) (header : Header) (ts : Texts) (info : EmailInfo) : Type 0 where
  pub from_header : info.from ≡ decode_mime_header m (header (codes "From"))
  pub to_header : info.to ≡ decode_mime_header m (header (codes "To"))
  pub subject_header : info.subject ≡ decode_mime_header m (header (codes "Subject"))
  pub date_header : info.date ≡ header (codes "Date")
  pub plain_texts : info.body ≡ join 10 (of_kind false ts)
  pub html_texts : info.html_body ≡ join 10 (of_kind true ts)

add_all-IsMail :
    (m : Mime) (header : Header) (ts : Texts) (info : EmailInfo)
    → info ≡ add_all ts (info_of m header)
    → IsMail m header ts info
add_all-IsMail m header ts info e =
    let (from, to, subject, date) = add_all-headers ts (info_of m header) in
    let (plain, html) = add_all-kept ts (info_of m header) in
    record {
      from_header = ap (λ i. i.from) e ∙ from;
      to_header = ap (λ i. i.to) e ∙ to;
      subject_header = ap (λ i. i.subject) e ∙ subject;
      date_header = ap (λ i. i.date) e ∙ date;
      plain_texts = ap (λ i. i.body) e ∙ plain ∙ of_kind-join false ts;
      html_texts = ap (λ i. i.html_body) e ∙ html ∙ of_kind-join true ts;
    }

finished-Has :
    (ts : Texts) (info after : EmailInfo) (p : Parsed)
    → Has ts info p
    → finished p ≡ ok after
    → after ≡ add_all ts info
finished-Has ts info after (got, ok u) h e = let same : after ≡ got = cc in same ∙ h
finished-Has ts info after (got, err x) h e = cc
finished-Has ts info after (got, stuck) h e = cc

-- A mail that was parsed has the headers of the message, decoded, its body has the plain texts of all
-- parts and of the parts inside them that are not attachments, in their order and with a line feed
-- between two, without those that are blank, and its HTML body has the HTML texts likewise. The message
-- was split into its header and its content by the library.
pub parse_email-IsMail :
    (m : Mime) (raw : Text) (header : Header) (content : Content) (info : EmailInfo)
    → m.read_message raw ≡ inl (header, content)
    → parse_email m raw ≡ ok info
    → IsMail m header (texts m (suc (length content.bytes)) header content) info
unfolding parse_email
parse_email-IsMail m raw header content info read parsed =
    let depth = suc (length content.bytes) in
    let start = info_of m header in
    let done : parse_read m (inl (header, content)) ≡ ok info =
      ap (parse_read m) (sym read) ∙ parsed in
    add_all-IsMail m header (texts m depth header content) info (
      finished-Has (texts m depth header content) start info
        (parse_mime_entity m depth header content start)
        (parse_mime_entity-Has m depth header content start) done)
