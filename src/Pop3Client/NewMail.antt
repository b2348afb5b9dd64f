-- ===== src/Pop3Client/NewMail.antt =====
-- pop3client/email_client.go: the mails of a mailbox, and the newest of them.
use public_golibs.Common.{
  Bool, true, ◌&&◌, ◌||◌, not, Option, none, some, List, [], ◌∷◌, ◌++◌, Text, if◌then◌else◌,
  is_empty, trim_space,
}
use public_golibs.Common.Int.{ℤ, leb_ℤ}
use public_golibs.Common.Words.{contains}
use public_golibs.Pop3Client.Wire.{Result, ok, err, stuck, Net, LongResp}
use public_golibs.Pop3Client.Commands.{list, retr}
use public_golibs.Pop3Client.Message.{EmailInfo, Mime, parse_email}
use public_golibs.Pop3Client.Email.{EmailClient, World, Done, on_server, get_email_stats, reconnect}

abbrev lines_of : Result LongResp → Result (List Text)
lines_of (ok (resp, lines, octets)) = ok lines
lines_of (err e) = err e
lines_of stuck = stuck

unfoldable pub get_email_list : Net → EmailClient → EmailClient × Result (List Text)
unfolding list
get_email_list net c = let (d, r) = on_server (list net none) c.pop_server c in (d, lines_of r)

abbrev pub join_crlf : List Text → Text
join_crlf [] = []
join_crlf (p ∷ []) = p
join_crlf (p ∷ q ∷ ps) = p ++ 13 ∷ 10 ∷ join_crlf (q ∷ ps)

abbrev pub content_of : Mime → Result LongResp → Result EmailInfo
content_of m (ok (resp, lines, octets)) = parse_email m (join_crlf lines)
content_of m (err e) = err e
content_of m stuck = stuck

unfoldable pub get_email_content : Mime → Net → ℤ → EmailClient → EmailClient × Result EmailInfo
unfolding retr parse_email
get_email_content m net index c =
    let (d, r) = on_server (retr net index) c.pop_server c in (d, content_of m r)

-- The letters are made small by strings.ToLower, which knows those of Unicode.
abbrev pub filter_of : Mime → Text → Text
filter_of m t = m.to_lower (trim_space t)

abbrev pub hits : Mime → Text → Text → Bool
hits m word text = not (is_empty word) && contains (m.to_lower text) word

unfoldable pub email_matches : Mime → EmailInfo → Text → Text → Bool
unfolding contains trim_space
email_matches m info from_filter subject_filter =
    let from_word = filter_of m from_filter in
    let subject_word = filter_of m subject_filter in
    if is_empty from_word && is_empty subject_word
    then true
    else hits m from_word info.from || hits m subject_word info.subject

abbrev pub matching : Mime → Text → Text → Result EmailInfo → Result (Option EmailInfo)
matching m from_filter subject_filter (ok info) =
    ok (if email_matches m info from_filter subject_filter then some info else none)
matching m from_filter subject_filter (err e) = err e
matching m from_filter subject_filter stuck = stuck

abbrev pub NewMail : Type 0
NewMail = EmailClient × Result (Option EmailInfo)

abbrev pub latest : Mime → Net → Text → Text → EmailClient × Result (ℤ × ℤ) → NewMail
latest m net from_filter subject_filter (c, ok (count, size)) =
    let (d, r) = get_email_content m net count c in
    if leb_ℤ count c.initial_email_count
    then (c, ok none)
    else (d, matching m from_filter subject_filter r)
latest m net from_filter subject_filter (c, err e) = (c, err e)
latest m net from_filter subject_filter (c, stuck) = (c, stuck)

abbrev pub once_connected : Mime → Net → Net → Text → Text → Done → NewMail
once_connected m count_net net from_filter subject_filter (c, ok u) =
    latest m net from_filter subject_filter (get_email_stats count_net c)
once_connected m count_net net from_filter subject_filter (c, err e) = (c, err e)
once_connected m count_net net from_filter subject_filter (c, stuck) = (c, stuck)

-- The first of the networks is for Close, the others are for the count and the mail.
unfoldable pub get_new_email : Mime → Net → World → Net → Net → Text → Text → EmailClient → NewMail
unfolding reconnect get_email_stats get_email_content email_matches
get_new_email m net w count_net mail_net from_filter subject_filter c =
    once_connected m count_net mail_net from_filter subject_filter (reconnect net w c)
