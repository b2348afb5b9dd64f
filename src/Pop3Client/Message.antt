-- ===== src/Pop3Client/Message.antt =====
-- pop3client/message.go: the texts of a mail. The parsers of net/mail, mime, mime/multipart and charset
-- and the transfer encodings are an argument. Letters and spaces are those of ASCII texts.
use public_golibs.Common.{
  ℕ, zero, suc, Bool, true, false, ◌||◌, Option, none, some, List, [], ◌∷◌, ◌++◌, Text, codes,
  if◌then◌else◌, length, is_empty, text_eq, trim_space, ◌⊎◌, inl, inr,
}
use public_golibs.Common.Words.{has_prefix, contains, to_lower}
use public_golibs.Pop3Client.Wire.{Error, Result, ok, err, stuck}

pub record EmailInfo : Type 0 where
  pub from : Text
  pub to : Text
  pub subject : Text
  pub date : Text
  pub body : Text
  pub html_body : Text

-- The value of a name, which is empty where there is none.
abbrev pub Header : Type 0
Header = Text → Text

-- What can be read of a part, and the failure at which reading it ends, if it is not the end.
pub record Content : Type 0 where
  pub bytes : Text
  pub broken : Option Error

pub record Mime : Type 0 where
  pub read_message : Text → (Header × Content) ⊎ Error
  pub parse_media_type : Text → Option (Text × Header)
  pub parts : Text → Content → List (Header × Content) × Option Error
  pub base64 : Content → Text ⊎ Error
  pub quoted_printable : Content → Text ⊎ Error
  pub decode_header : Text → Option Text
  pub decode_charset : Text → Text → Option Text
  pub to_lower : Text → Text

unfoldable pub append_text : Text → Text → Text
append_text existing next =
    if is_empty (trim_space next)
    then existing
    else if is_empty existing
    then next
    else existing ++ 10 ∷ next

abbrev or_same : Text → Option Text → Text
or_same value none = value
or_same value (some t) = t

unfoldable pub decode_mime_header : Mime → Text → Text
decode_mime_header m value = if is_empty value then [] else or_same value (m.decode_header value)

unfoldable pub decode_body : Mime → Text → Text → Text
decode_body m bytes charset =
    if is_empty (trim_space charset) then bytes else or_same bytes (m.decode_charset charset bytes)

-- io.ReadAll of what no encoding changes
abbrev read_all : Option Error → Text → Text ⊎ Error
read_all none bytes = inl bytes
read_all (some e) bytes = inr e

-- transferDecodedReader, and io.ReadAll of it
unfoldable pub transfer_decoded : Mime → Header → Content → Text ⊎ Error
transfer_decoded m header content =
    let encoding = to_lower (trim_space (header (codes "Content-Transfer-Encoding"))) in
    if text_eq encoding (codes "base64")
    then m.base64 content
    else if text_eq encoding (codes "quoted-printable")
    then m.quoted_printable content
    else read_all content.broken content.bytes

abbrev plain_text : Text × Header
plain_text = (codes "text/plain", λ name. [])

abbrev given_type : Option (Text × Header) → Text × Header
given_type none = plain_text
given_type (some (t, params)) = if is_empty t then plain_text else (to_lower t, params)

-- The media type of a part and its parameters.
unfoldable pub media_type : Mime → Header → Text × Header
media_type m header = given_type (m.parse_media_type (header (codes "Content-Type")))

unfoldable pub is_attachment : Header → Bool
is_attachment header =
    contains (to_lower (header (codes "Content-Disposition"))) (codes "attachment")

abbrev pub Parsed : Type 0
Parsed = EmailInfo × Result (Unit {0})

abbrev pub is_html : Text → Bool
is_html media = text_eq media (codes "text/html")

abbrev pub add_text : Bool → Text → EmailInfo → EmailInfo
add_text true text info = record info { html_body = append_text info.html_body text }
add_text false text info = record info { body = append_text info.body text }

abbrev pub add_leaf : Mime → Text × Header → EmailInfo → Text ⊎ Error → Parsed
add_leaf m (media, params) info (inl bytes) =
    (add_text (is_html media) (decode_body m bytes (params (codes "charset"))) info, ok tt)
add_leaf m (media, params) info (inr e) = (info, err e)

abbrev pub all_read : Option Error → EmailInfo → Parsed
all_read none info = (info, ok tt)
all_read (some e) info = (info, err e)

abbrev pub then_parse : (EmailInfo → Parsed) → Parsed → Parsed
then_parse next (info, ok u) = next info
then_parse next (info, err e) = (info, err e)
then_parse next (info, stuck) = (info, stuck)

-- The loop over the parts, with what is done to one.
abbrev pub each_part :
    (Header → Content → EmailInfo → Parsed)
    → List (Header × Content)
    → Option Error
    → EmailInfo
    → Parsed
each_part parse [] last info = all_read last info
each_part parse ((header, content) ∷ parts) last info =
    then_parse (each_part parse parts last) (parse header content info)

abbrev pub as_media :
    Mime
    → (Header → Content → EmailInfo → Parsed)
    → Text × Header
    → Header
    → Content
    → EmailInfo
    → Parsed
as_media m parse (media, params) header content info =
    let (parts, last) = m.parts (params (codes "boundary")) content in
    if has_prefix media (codes "multipart/")
    then if is_empty (params (codes "boundary"))
      then (info, ok tt)
      else each_part parse parts last info
    else if text_eq media (codes "text/plain") || is_html media
    then add_leaf m (media, params) info (transfer_decoded m header content)
    else (info, ok tt)

-- On fuel, of which a level of parts takes one.
unfoldable pub parse_mime_entity : Mime → ℕ → Header → Content → EmailInfo → Parsed
parse_mime_entity m zero header content info = (info, stuck)
parse_mime_entity m (suc fuel) header content info =
    if is_attachment header
    then (info, ok tt)
    else as_media m (parse_mime_entity m fuel) (media_type m header) header content info

abbrev pub info_of : Mime → Header → EmailInfo
info_of m header = record {
  from = decode_mime_header m (header (codes "From"));
  to = decode_mime_header m (header (codes "To"));
  subject = decode_mime_header m (header (codes "Subject"));
  date = header (codes "Date");
  body = [];
  html_body = [];
}

abbrev pub finished : Parsed → Result EmailInfo
finished (info, ok u) = ok info
finished (info, err e) = err e
finished (info, stuck) = stuck

-- A part is shorter than what it is a part of, so the length is enough.
abbrev pub parse_read : Mime → (Header × Content) ⊎ Error → Result EmailInfo
parse_read m (inl (header, content)) =
    finished (parse_mime_entity m (suc (length content.bytes)) header content (info_of m header))
parse_read m (inr e) = err e

unfoldable pub parse_email : Mime → Text → Result EmailInfo
unfolding parse_mime_entity
parse_email m raw = parse_read m (m.read_message raw)
