-- ===== src/Pop3Client/Texts.antt =====
-- pop3client/message.go: what reading a mail finds, and that it ends.
use public_golibs.Common.{
  ℕ, zero, suc, ◌≡◌, refl, Bool, true, false, ◌||◌, Option, none, some, List, [], ◌∷◌, ◌++◌, Text,
  codes, if◌then◌else◌, is_empty, text_eq, trim_space, ◌⊎◌, inl, inr, Bool-cases,
}
use public_golibs.Common.Words.{has_prefix}
use public_golibs.Pop3Client.Wire.{Error, ok, err, stuck}
use public_golibs.Pop3Client.Message.{
  EmailInfo, Header, Content, Mime, decode_body, transfer_decoded, media_type, is_attachment,
  Parsed, is_html, add_text, add_leaf, then_parse, each_part, as_media, parse_mime_entity,
}

-- The texts of a message with their kind, which is true of HTML.
abbrev pub Texts : Type 0
Texts = List (Bool × Text)

abbrev pub leaf_texts : Mime → Text × Header → Text ⊎ Error → Texts
leaf_texts m (media, params) (inl bytes) =
    (is_html media, decode_body m bytes (params (codes "charset"))) ∷ []
leaf_texts m (media, params) (inr e) = []

abbrev pub part_texts : (Header → Content → Texts) → List (Header × Content) → Texts
part_texts inner [] = []
part_texts inner ((header, content) ∷ parts) = inner header content ++ part_texts inner parts

abbrev pub media_texts :
    Mime → (Header → Content → Texts) → Text × Header → Header → Content → Texts
media_texts m inner (media, params) header content =
    let found = part_texts inner (m.parts (params (codes "boundary")) content).0 in
    if has_prefix media (codes "multipart/")
    then if is_empty (params (codes "boundary")) then [] else found
    else if text_eq media (codes "text/plain") || is_html media
    then leaf_texts m (media, params) (transfer_decoded m header content)
    else []

-- The texts of a part and of those inside it, from the first to the last, to a depth.
unfoldable pub texts : Mime → ℕ → Header → Content → Texts
texts m zero header content = []
texts m (suc depth) header content =
    if is_attachment header
    then []
    else media_texts m (texts m depth) (media_type m header) header content

-- Those of one kind that are not blank.
abbrev pub of_kind : Bool → Texts → List Text
of_kind html [] = []
of_kind true ((true, t) ∷ ts) =
    if is_empty (trim_space t) then of_kind true ts else t ∷ of_kind true ts
of_kind true ((false, t) ∷ ts) = of_kind true ts
of_kind false ((true, t) ∷ ts) = of_kind false ts
of_kind false ((false, t) ∷ ts) =
    if is_empty (trim_space t) then of_kind false ts else t ∷ of_kind false ts

unfoldable pub add_all : Texts → EmailInfo → EmailInfo
add_all [] info = info
add_all ((html, t) ∷ ts) info = add_all ts (add_text html t info)

add_all-append :
    (ts us : Texts) (info : EmailInfo) → add_all (ts ++ us) info ≡ add_all us (add_all ts info)
unfolding add_all
add_all-append [] us info = refl
add_all-append ((html, t) ∷ ts) us info = add_all-append ts us (add_text html t info)

-- What is parsed without a failure has got these texts.
abbrev pub Has : Texts → EmailInfo → Parsed → Type 0
Has ts info (after, ok u) = after ≡ add_all ts info
Has ts info (after, err e) = Unit
Has ts info (after, stuck) = Unit

Has-append :
    (ts us : Texts) (info mid : EmailInfo) (p : Parsed)
    → mid ≡ add_all ts info
    → Has us mid p
    → Has (ts ++ us) info p
Has-append ts us info mid (after, ok u) e h = rw (add_all-append ts us info, ← e) h
Has-append ts us info mid (after, err x) e h = tt
Has-append ts us info mid (after, stuck) e h = tt

then_parse-Has :
    (ts us : Texts) (info : EmailInfo) (p : Parsed) (next : EmailInfo → Parsed)
    → Has ts info p
    → ((i : EmailInfo) → Has us i (next i))
    → Has (ts ++ us) info (then_parse next p)
then_parse-Has ts us info (after, err e) next h k = tt
then_parse-Has ts us info (after, stuck) next h k = tt
then_parse-Has ts us info (after, ok u) next h k =
    Has-append ts us info after (next after) h (k after)

module _ (parse : Header → Content → EmailInfo → Parsed) (inner : Header → Content → Texts)
    (ih : (header : Header) (content : Content) (info : EmailInfo)
      → Has (inner header content) info (parse header content info)) where
  each_part-Has :
      (parts : List (Header × Content)) (last : Option Error) (info : EmailInfo)
      → Has (part_texts inner parts) info (each_part parse parts last info)
  unfolding add_all
  each_part-Has [] none info = refl
  each_part-Has [] (some e) info = tt
  each_part-Has ((header, content) ∷ parts) last info =
      then_parse-Has (inner header content) (part_texts inner parts) info
        (parse header content info) (each_part parse parts last) (ih header content info)
        (each_part-Has parts last)

  add_leaf-Has :
      (m : Mime) (media : Text × Header) (info : EmailInfo) (d : Text ⊎ Error)
      → Has (leaf_texts m media d) info (add_leaf m media info d)
  unfolding add_all
  add_leaf-Has m (media, params) info (inl bytes) = refl
  add_leaf-Has m (media, params) info (inr e) = tt

  as_media-Has :
      (m : Mime) (media : Text × Header) (header : Header) (content : Content) (info : EmailInfo)
      → Has
          (media_texts m inner media header content)
          info
          (as_media m parse media header content info)
  unfolding add_all
  as_media-Has m (media, params) header content info =
      let given = m.parts (params (codes "boundary")) content in
      elim (Bool-cases (has_prefix media (codes "multipart/"))) [
        | inl multi ↦ elim (Bool-cases (is_empty (params (codes "boundary")))) [
          | inl no_boundary ↦ rw (multi, no_boundary) refl
          | inr boundary ↦ rw (multi, boundary) (each_part-Has given.0 given.1 info)
        ]
        | inr single ↦ elim (Bool-cases (text_eq media (codes "text/plain") || is_html media)) [
          | inl text ↦
              rw (single, text)
                (add_leaf-Has m (media, params) info (transfer_decoded m header content))
          | inr other ↦ rw (single, other) refl
        ]
      ]

pub parse_mime_entity-Has :
    (m : Mime) (fuel : ℕ) (header : Header) (content : Content) (info : EmailInfo)
    → Has (texts m fuel header content) info (parse_mime_entity m fuel header content info)
unfolding add_all texts parse_mime_entity
parse_mime_entity-Has m zero header content info = tt
parse_mime_entity-Has m (suc fuel) header content info = elim (Bool-cases (is_attachment header)) [
  | inl attached ↦ rw attached refl
  | inr shown ↦ rw shown (
      as_media-Has (parse_mime_entity m fuel) (texts m fuel) (parse_mime_entity-Has m fuel) m
        (media_type m header) header content info)
]
