-- ===== src/Pop3Client/MailCalls.antt =====
-- pop3client/email_client.go: calls of a mailbox one after the other.
use public_golibs.Common.{
  Option, none, some, List, [], ◌∷◌, ◌++◌, Text, codes, Bool-cases, inl, inr,
}
use public_golibs.Common.Int.{ℤ, leb_ℤ}
use public_golibs.Common.Words.{format_int}
use public_golibs.Pop3Client.Wire.{Result, ok, err, stuck, Net}
use public_golibs.Pop3Client.Commands.{list, retr}
use public_golibs.Pop3Client.Opens.{long_cmd-IsOpen}
use public_golibs.Pop3Client.Email.{
  EmailConfig, EmailClient, World, Done, new_email_client, set_email_with_config, on_server,
  get_email_stats, email_close, email_connect, reconnect, detect_email_type, configured,
}
use public_golibs.Pop3Client.Message.{Mime}
use public_golibs.Pop3Client.NewMail.{
  get_email_list, get_email_content, get_new_email, latest, once_connected,
}
use public_golibs.Pop3Client.Sessions.{
  Tidy, close_pop_server-Tidy, HeldIfOk-Tidy, on_server-HeldIfOk, get_email_stats-HeldIfOk,
  email_connect-Ready, Ready-Tidy, reconnect-Ready,
}

-- A call, with the answers of the network.
pub data Call : Type 0 where
  call_set : EmailConfig → Call
  call_connect : World → Call
  call_reconnect : Net → World → Call
  call_close : Net → Call
  call_stats : Net → Call
  call_list : Net → Call
  call_content : Mime → Net → ℤ → Call
  call_new_email : Mime → Net → World → Net → Net → Text → Text → Call

unfoldable pub call : Call → EmailClient → EmailClient
unfolding set_email_with_config email_connect reconnect email_close get_email_stats get_email_list
    get_email_content get_new_email
call (call_set cfg) c = (set_email_with_config cfg c).0
call (call_connect w) c = (email_connect w c).0
call (call_reconnect net w) c = (reconnect net w c).0
call (call_close net) c = email_close net c
call (call_stats net) c = (get_email_stats net c).0
call (call_list net) c = (get_email_list net c).0
call (call_content m net index) c = (get_email_content m net index c).0
call (call_new_email m net w count_net mail_net from_filter subject_filter) c =
    (get_new_email m net w count_net mail_net from_filter subject_filter c).0

unfoldable pub run_mail : List Call → EmailClient → EmailClient
unfolding call
run_mail [] c = c
run_mail (a ∷ calls) c = run_mail calls (call a c)

configured-Tidy :
    (kind : Option Text) (cfg : EmailConfig) (c : EmailClient)
    → Tidy c
    → Tidy (configured kind cfg c).0
configured-Tidy none cfg c t = t
configured-Tidy (some kind) cfg c t = record { held = t.held; closed_left = t.closed_left }

get_email_list-Tidy : (net : Net) (c : EmailClient) → Tidy c → Tidy (get_email_list net c).0
unfolding get_email_list list
get_email_list-Tidy net c t = HeldIfOk-Tidy (on_server (list net none) c.pop_server c) (
    on_server-HeldIfOk (list net none) c.pop_server c
      (λ s h. long_cmd-IsOpen net (codes "LIST") s h) t t.held)

get_email_content-Tidy :
    (m : Mime) (net : Net) (index : ℤ) (c : EmailClient)
    → Tidy c
    → Tidy (get_email_content m net index c).0
unfolding get_email_content retr
get_email_content-Tidy m net index c t = HeldIfOk-Tidy (on_server (retr net index) c.pop_server c) (
    on_server-HeldIfOk (retr net index) c.pop_server c
      (λ s h. long_cmd-IsOpen net (codes "RETR " ++ format_int index) s h) t t.held)

module _ (m : Mime) (net : Net) (from_filter subject_filter : Text) where
  latest-Tidy :
      (p : EmailClient × Result (ℤ × ℤ))
      → Tidy p.0
      → Tidy (latest m net from_filter subject_filter p).0
  latest-Tidy (c, ok (count, size)) t = elim (Bool-cases (leb_ℤ count c.initial_email_count)) [
    | inl old ↦ simp (old) t
    | inr newer ↦ simp (newer) (get_email_content-Tidy m net count c t)
  ]
  latest-Tidy (c, err e) t = t
  latest-Tidy (c, stuck) t = t

  once_connected-Tidy :
      (count_net : Net) (p : Done)
      → Tidy p.0
      → Tidy (once_connected m count_net net from_filter subject_filter p).0
  once_connected-Tidy count_net (c, ok u) t =
      latest-Tidy (get_email_stats count_net c)
        (HeldIfOk-Tidy (get_email_stats count_net c) (get_email_stats-HeldIfOk count_net c t))
  once_connected-Tidy count_net (c, err e) t = t
  once_connected-Tidy count_net (c, stuck) t = t

call-Tidy : (a : Call) (c : EmailClient) → Tidy c → Tidy (call a c)
unfolding call set_email_with_config email_close get_new_email
call-Tidy (call_set cfg) c t = configured-Tidy (detect_email_type cfg.username) cfg c t
call-Tidy (call_connect w) c t = Ready-Tidy (email_connect w c) (email_connect-Ready w c t)
call-Tidy (call_reconnect net w) c t = Ready-Tidy (reconnect net w c) (reconnect-Ready net w c t)
call-Tidy (call_close net) c t = close_pop_server-Tidy net c t
call-Tidy (call_stats net) c t =
    HeldIfOk-Tidy (get_email_stats net c) (get_email_stats-HeldIfOk net c t)
call-Tidy (call_list net) c t = get_email_list-Tidy net c t
call-Tidy (call_content m net index) c t = get_email_content-Tidy m net index c t
call-Tidy (call_new_email m net w count_net mail_net from_filter subject_filter) c t =
    once_connected-Tidy m mail_net from_filter subject_filter count_net (reconnect net w c)
      (Ready-Tidy (reconnect net w c) (reconnect-Ready net w c t))

run_mail-keeps-Tidy : (calls : List Call) (c : EmailClient) → Tidy c → Tidy (run_mail calls c)
unfolding run_mail
run_mail-keeps-Tidy [] c t = t
run_mail-keeps-Tidy (a ∷ calls) c t = run_mail-keeps-Tidy calls (call a c) (call-Tidy a c t)

-- After any calls of a new client, with any answers of the network, the connection that the client holds
-- is open, and all others that were ever made for it are closed, so that none leaks: those it has left or
-- overwritten, and those whose handshake, greeting or login failed.
pub run_mail-Tidy : (calls : List Call) → Tidy (run_mail calls new_email_client)
run_mail-Tidy calls =
    run_mail-keeps-Tidy calls new_email_client (record { held = tt; closed_left = tt })
