-- ===== src/Pop3Client/MailEnds.antt =====
-- pop3client/message.go: reading a mail ends.
use public_golibs.Common.{
  ℕ, zero, suc, ◌<◌, ◌≢◌, ◌||◌, Option, none, some, List, [], ◌∷◌, Text, codes, length, is_empty,
  text_eq, ◌⊎◌, inl, inr, arith, Bool-cases, All,
}
use public_golibs.Common.Words.{has_prefix}
use public_golibs.Pop3Client.Wire.{Error, ok, err, stuck}
use public_golibs.Pop3Client.Message.{
  EmailInfo, Header, Content, Mime, transfer_decoded, media_type, is_attachment, Parsed, is_html,
  add_leaf, all_read, then_parse, each_part, as_media, parse_mime_entity, info_of, finished,
  parse_read, parse_email,
}

-- Reading ends, where each part of a content is shorter than it, since its boundary lines are not in it.
abbrev pub PartsAreShorter : Mime → Type 0
PartsAreShorter m =
    (boundary : Text) (content : Content)
    → All (λ p. length p.1.bytes < length content.bytes) (m.parts boundary content).0

abbrev Ends : Parsed → Type 0
Ends (info, ok u) = Unit
Ends (info, err e) = Unit
Ends (info, stuck) = ⊥

then_parse-Ends :
    (p : Parsed) (next : EmailInfo → Parsed)
    → Ends p
    → ((info : EmailInfo) → Ends (next info))
    → Ends (then_parse next p)
then_parse-Ends (info, ok u) next h k = k info
then_parse-Ends (info, err e) next h k = tt
then_parse-Ends (info, stuck) next h k = h

all_read-Ends : (last : Option Error) (info : EmailInfo) → Ends (all_read last info)
all_read-Ends none info = tt
all_read-Ends (some e) info = tt

add_leaf-Ends :
    (m : Mime) (media : Text × Header) (info : EmailInfo) (d : Text ⊎ Error)
    → Ends (add_leaf m media info d)
add_leaf-Ends m (media, params) info (inl bytes) = tt
add_leaf-Ends m (media, params) info (inr e) = tt

module _ (parse : Header → Content → EmailInfo → Parsed) (n : ℕ)
    (ih : (header : Header) (content : Content) (info : EmailInfo)
      → length content.bytes < n
      → Ends (parse header content info)) where
  each_part-Ends :
      (parts : List (Header × Content)) (last : Option Error) (info : EmailInfo)
      → All (λ p. length p.1.bytes < n) parts
      → Ends (each_part parse parts last info)
  each_part-Ends [] last info h = all_read-Ends last info
  each_part-Ends ((header, content) ∷ parts) last info h =
      then_parse-Ends (parse header content info) (each_part parse parts last)
        (ih header content info h.0) (λ i. each_part-Ends parts last i h.1)

  as_media-Ends :
      (m : Mime) (media : Text × Header) (header : Header) (content : Content) (info : EmailInfo)
      → ((boundary : Text) → All (λ p. length p.1.bytes < n) (m.parts boundary content).0)
      → Ends (as_media m parse media header content info)
  as_media-Ends m (media, params) header content info h =
      let boundary = params (codes "boundary") in
      let given = m.parts boundary content in
      elim (Bool-cases (has_prefix media (codes "multipart/"))) [
        | inl multi ↦ elim (Bool-cases (is_empty boundary)) [
          | inl no_boundary ↦ rw (multi, no_boundary) tt
          | inr bounded ↦ rw (multi, bounded) (each_part-Ends given.0 given.1 info (h boundary))
        ]
        | inr single ↦ elim (Bool-cases (text_eq media (codes "text/plain") || is_html media)) [
          | inl text ↦
              rw (single, text)
                (add_leaf-Ends m (media, params) info (transfer_decoded m header content))
          | inr other ↦ rw (single, other) tt
        ]
      ]

parse_mime_entity-Ends :
    (m : Mime) (fuel : ℕ) (header : Header) (content : Content) (info : EmailInfo)
    → PartsAreShorter m
    → length content.bytes < fuel
    → Ends (parse_mime_entity m fuel header content info)
unfolding parse_mime_entity
parse_mime_entity-Ends m zero header content info shorter h = absurd (omega arith)
parse_mime_entity-Ends m (suc fuel) header content info shorter h =
    elim (Bool-cases (is_attachment header)) [
      | inl attached ↦ rw attached tt
      | inr shown ↦ rw shown (
          as_media-Ends (parse_mime_entity m fuel) (length content.bytes)
            (λ part_header part i less.
              parse_mime_entity-Ends m fuel part_header part i shorter (omega arith))
            m (media_type m header) header content info (λ boundary. shorter boundary content))
    ]

Ends-ne-stuck : (p : Parsed) → Ends p → finished p ≢ stuck
Ends-ne-stuck (info, ok u) h e = cc
Ends-ne-stuck (info, err x) h e = cc
Ends-ne-stuck (info, stuck) h e = h

parse_read-ne-stuck :
    (m : Mime) (r : (Header × Content) ⊎ Error) → PartsAreShorter m → parse_read m r ≢ stuck
parse_read-ne-stuck m (inl (header, content)) shorter =
    Ends-ne-stuck
      (parse_mime_entity m (suc (length content.bytes)) header content (info_of m header))
      (parse_mime_entity-Ends m (suc (length content.bytes)) header content (info_of m header)
        shorter (omega arith))
parse_read-ne-stuck m (inr x) shorter = λ e. cc

-- Parsing a mail ends, however deep its parts are nested, where the parts that the library finds in a
-- content are shorter than the content.
pub parse_email_ends : (m : Mime) (raw : Text) → PartsAreShorter m → parse_email m raw ≢ stuck
unfolding parse_email
parse_email_ends m raw shorter = parse_read-ne-stuck m (m.read_message raw) shorter
