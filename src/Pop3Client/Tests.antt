-- ===== src/Pop3Client/Tests.antt =====
-- Mails, answers and sessions at concrete inputs.
use public_golibs.Common.{
  ◌≡◌, ◌≢◌, refl, true, false, Option, none, some, List, [], ◌∷◌, ◌++◌, Text, codes, inl, inr,
  arith, length, text_eq, if◌then◌else◌, ◌<◌, All, trim_space,
}
use public_golibs.Common.Int.{pos}
use public_golibs.Common.Words.{contains, to_lower}
use public_golibs.Pop3Client.Wire.{
  ok, stuck, Conn, Net, Pop3Client, ProxyConfig, get_long_resp, crlf,
}
use public_golibs.Pop3Client.Commands.{stat}
use public_golibs.Pop3Client.Login.{Dial, Pop3Config, unconnected}
use public_golibs.Pop3Client.Framing.{IsLine, send_lines, octets, get_long_resp-send_lines}
use public_golibs.Pop3Client.StatTrip.{stat-stat_answer, stat_answer}
use public_golibs.Pop3Client.Proxy.{
  Dialer, Tunnels, connect_request, dial_http_proxy-Tunnels, dial_http_proxy, address,
}
use public_golibs.Pop3Client.Email.{
  EmailConfig, EmailClient, World, new_email_client, email_connect, reconnect,
}
use public_golibs.Pop3Client.Message.{
  Header, Content, Mime, EmailInfo, parse_email, is_attachment, media_type, transfer_decoded,
  decode_mime_header, append_text, decode_body,
}
use public_golibs.Pop3Client.Texts.{texts}
use public_golibs.Pop3Client.Bodies.{IsMail, parse_email-IsMail}
use public_golibs.Pop3Client.MailEnds.{parse_email_ends}
use public_golibs.Pop3Client.NewMail.{get_new_email}
use public_golibs.Pop3Client.Sessions.{Tidy, Ready, email_connect-Ready}
use public_golibs.Pop3Client.MailCalls.{
  call_set, call_connect, call_stats, call_close, run_mail, run_mail-Tidy,
}
use public_golibs.Pop3Client.NewMailLaws.{run_mail-first_count}
use public_golibs.Pop3Client.NewMailFound.{LatestOf, Wanted, get_new_email-LatestOf}

abbrev working : Net
working = record {
  write_error = λ line. none;
  close_error = none;
  handshake = λ config. (
    none,
    codes "+OK hello"
        ++ crlf
        ++ (codes "+OK user" ++ crlf)
        ++ (codes "+OK pass" ++ crlf)
        ++ (codes "+OK 3 120" ++ crlf)
        ++ (codes "+OK" ++ crlf ++ (codes "xhi" ++ crlf) ++ (codes "." ++ crlf)),
  );
}

abbrev receiving : Text → Conn
receiving t = record { sent = []; incoming = t; is_tls = false }

abbrev no_proxy : ProxyConfig
no_proxy = record { kind = []; host = []; port = pos 0; username = []; password = [] }

abbrev local_config : Pop3Config
local_config = record {
  host = codes "localhost";
  port = pos 110;
  timeout = pos 1;
  proxy = no_proxy;
  tls_config = none;
  insecure_skip_verify = false;
}

abbrev holding : Conn → Pop3Client
holding s = record (unconnected local_config) { conn = some s }

abbrev mail_lines : List Text
mail_lines = codes "a" ∷ codes "." ∷ codes "" ∷ codes "..b" ∷ []

ok-IsLine : IsLine (codes "+OK")
ok-IsLine = record { one_line = ground arith; no_return = refl; short = omega arith }

get_long_resp-send_lines_example :
    get_long_resp (receiving (codes "+OK" ++ 13 ∷ 10 ∷ send_lines mail_lines (codes "x")))
    ≡ (receiving (codes "x"), ok (codes "+OK", mail_lines, octets mail_lines))
get_long_resp-send_lines_example =
    get_long_resp-send_lines
      (receiving (codes "+OK" ++ 13 ∷ 10 ∷ send_lines mail_lines (codes "x"))) (codes "+OK")
      mail_lines (codes "x") ok-IsLine refl
      (
        record { one_line = ground arith; no_return = refl; short = omega arith },
        (
          record { one_line = ground arith; no_return = refl; short = omega arith },
          (
            record { one_line = tt; no_return = refl; short = omega arith },
            (record { one_line = ground arith; no_return = refl; short = omega arith }, tt),
          ),
        ),
      )
      refl

stat-stat_answer_example :
    stat working (holding (receiving (stat_answer 2 320 ++ 13 ∷ 10 ∷ []))) ≡ (
      holding (record { sent = codes "STAT" ++ crlf; incoming = []; is_tls = false }),
      ok (pos 2, pos 320),
    )
stat-stat_answer_example =
    stat-stat_answer working (holding (receiving (stat_answer 2 320 ++ 13 ∷ 10 ∷ [])))
      (receiving (stat_answer 2 320 ++ 13 ∷ 10 ∷ [])) 2 320 [] refl refl refl (omega arith)
      (omega arith)

abbrev dial_ok : Dial
dial_ok target timeout proxy = ok (receiving (codes "+OK hello" ++ crlf))

abbrev http_dialer : Dialer
http_dialer = record {
  direct = λ net target timeout. inl (codes "200");
  socks5 = λ net proxy login target timeout. inr (codes "none");
  write_error = λ request. none;
  read_response = λ t. inl (record { code = 200; line = codes "200 OK"; rest = codes "+OK" });
  base64 = λ t. t;
}

abbrev tunnel : Conn
tunnel = record {
  sent = connect_request http_dialer (codes "pop.126.com:995") no_proxy;
  incoming = codes "+OK";
  is_tls = false;
}

dial_http_proxy-Tunnels_example :
    Tunnels http_dialer
      (connect_request http_dialer (codes "pop.126.com:995") no_proxy)
      (http_dialer.direct (codes "tcp") (address no_proxy) (pos 1))
      tunnel
unfolding text_eq
dial_http_proxy-Tunnels_example =
    dial_http_proxy-Tunnels http_dialer (codes "tcp") (codes "pop.126.com:995") (pos 1) no_proxy
      tunnel (unfold dial_http_proxy in refl)

-- A mail that is a multipart message has a part with all of its bytes but the first.
abbrev mail_header : Header
mail_header name = if text_eq name (codes "Content-Type") then codes "m" else []

abbrev content_of_bytes : Text → Content
content_of_bytes t = record { bytes = t; broken = none }

abbrev parts_of : Text → List (Header × Content)
parts_of [] = []
parts_of (c ∷ s) = ((λ name. []), content_of_bytes s) ∷ []

abbrev media_of : Text → Option (Text × Header)
media_of [] = none
media_of (c ∷ s) = some (codes "multipart/mixed", λ name. codes "b")

abbrev small_mime : Mime
small_mime = record {
  read_message = λ raw. inl (mail_header, content_of_bytes raw);
  parse_media_type = media_of;
  parts = λ boundary content. (parts_of content.bytes, none);
  base64 = λ content. inl content.bytes;
  quoted_printable = λ content. inl content.bytes;
  decode_header = λ t. some t;
  decode_charset = λ label t. some t;
  to_lower = to_lower;
}

parts_are_shorter : (t : Text) → All (λ p. length p.1.bytes < length t) (parts_of t)
parts_are_shorter [] = tt
parts_are_shorter (c ∷ s) = (omega arith, tt)

parse_email_ends_example : parse_email small_mime (codes "xhi") ≢ stuck
parse_email_ends_example =
    parse_email_ends small_mime (codes "xhi") (λ boundary content. parts_are_shorter content.bytes)

abbrev small_mail : EmailInfo
small_mail = record {
  from = [];
  to = [];
  subject = [];
  date = [];
  body = codes "hi";
  html_body = [];
}

small_mail_parsed : parse_email small_mime (codes "xhi") ≡ ok small_mail
unfolding parse_email is_attachment contains text_eq media_type transfer_decoded trim_space
    decode_mime_header append_text decode_body
small_mail_parsed = refl

parse_email-IsMail_example :
    IsMail small_mime mail_header
      (texts small_mime 4 mail_header (content_of_bytes (codes "xhi")))
      small_mail
parse_email-IsMail_example =
    parse_email-IsMail small_mime (codes "xhi") mail_header (content_of_bytes (codes "xhi"))
      small_mail refl small_mail_parsed

abbrev mail_world : World
mail_world = record {
  is_address = λ host. false;
  before = working;
  dial = dial_ok;
  greeting = working;
  on_user = working;
  on_pass = working;
  on_stat = working;
  after = working;
}

abbrev account : EmailConfig
account = record {
  username = codes "a@126.com";
  password = codes "p";
  proxy = no_proxy;
  timeout = pos 0;
}

abbrev counted_two : EmailClient
counted_two = record new_email_client {
  email_type = codes "126";
  initial_email_count = pos 2;
  initial_count_set = true;
}

email_connect-Ready_example : Ready (email_connect mail_world counted_two)
email_connect-Ready_example =
    email_connect-Ready mail_world counted_two (record { held = tt; closed_left = tt })

run_mail-Tidy_example : Tidy (
    run_mail
      (call_set account ∷ call_connect mail_world ∷ call_close working ∷ [])
      new_email_client)
run_mail-Tidy_example =
    run_mail-Tidy (call_set account ∷ call_connect mail_world ∷ call_close working ∷ [])

run_mail-first_count_example :
    ((run_mail (call_connect mail_world ∷ call_stats working ∷ []) counted_two).initial_email_count
      ≡ pos 2)
    × ((run_mail (call_connect mail_world ∷ call_stats working ∷ []) counted_two).initial_count_set
        ≡ true)
run_mail-first_count_example =
    run_mail-first_count (call_connect mail_world ∷ call_stats working ∷ []) counted_two (pos 2)
      (tt, (tt, tt)) refl refl

new_mail_found :
    (get_new_email small_mime working mail_world working working [] [] counted_two).1
    ≡ ok (some small_mail)
unfolding get_new_email text_eq is_attachment media_type transfer_decoded decode_mime_header
    append_text decode_body
new_mail_found = refl

get_new_email-LatestOf_example :
    ((reconnect working mail_world counted_two).1 ≡ ok tt)
    × LatestOf small_mime working working (reconnect working mail_world counted_two).0 small_mail
    × Wanted small_mime [] [] small_mail
get_new_email-LatestOf_example =
    get_new_email-LatestOf small_mime working mail_world working working [] [] counted_two
      small_mail new_mail_found
