-- ===== src/Pop3Client/NewMailLaws.antt =====
-- pop3client/email_client.go: the first count, and what counts as a new mail.
use public_golibs.Common.{
  ◌≡◌, refl, ◌∙◌, true, Option, none, some, List, [], ◌∷◌, Text, Bool-cases, inl, inr, All,
}
use public_golibs.Common.Int.{ℤ, leb_ℤ}
use public_golibs.Pop3Client.Wire.{Result, ok, err, stuck, Net, Pop3Client}
use public_golibs.Pop3Client.Commands.{user, pass, stat, list, retr}
use public_golibs.Pop3Client.Login.{Made, new_pop3_client_with_config}
use public_golibs.Pop3Client.Email.{
  EmailClient, World, Done, close_pop_server, on_server, get_email_stats, server_config, log_in,
  first_count, pop3_config, email_close, email_connect, reconnect, leave, logged_in, connected,
  to_service, hold,
}
use public_golibs.Pop3Client.Message.{Mime}
use public_golibs.Pop3Client.NewMail.{
  get_email_list, get_email_content, get_new_email, latest, once_connected,
}
use public_golibs.Pop3Client.MailCalls.{
  Call, call_set, call_connect, call_reconnect, call_close, call_stats, call_list, call_content,
  call_new_email, call, run_mail,
}

-- The first count is as it was.
record Same (c d : EmailClient) : Type 0 where
  count : d.initial_email_count ≡ c.initial_email_count
  set : d.initial_count_set ≡ c.initial_count_set

Same-refl : (c : EmailClient) → Same c c
Same-refl c = record { count = refl; set = refl }

leave-Same : (net : Net) (o : Option Pop3Client) (c : EmailClient) → Same c (leave net o c)
leave-Same net none c = Same-refl c
leave-Same net (some s) c = record { count = refl; set = refl }

on_server-Same {ℓ} :
    {A : Type ℓ} (f : Pop3Client → Pop3Client × Result A) (o : Option Pop3Client) (c : EmailClient)
    → Same c (on_server f o c).0
on_server-Same f none c = Same-refl c
on_server-Same f (some s) c = record { count = refl; set = refl }

abbrev Keeps : ℤ → EmailClient → Type 0
Keeps n c = (c.initial_email_count ≡ n) × (c.initial_count_set ≡ true)

Same-Keeps : (n : ℤ) (c d : EmailClient) → Same c d → Keeps n c → Keeps n d
Same-Keeps n c d s k = (s.count ∙ k.0, s.set ∙ k.1)

module _ (n : ℤ) where
  close_pop_server-Keeps :
      (net : Net) (c : EmailClient) → Keeps n c → Keeps n (close_pop_server net c)
  unfolding close_pop_server
  close_pop_server-Keeps net c k =
      Same-Keeps n c (close_pop_server net c) (leave-Same net c.pop_server c) k

  on_server-Keeps {ℓ} :
      {A : Type ℓ} (f : Pop3Client → Pop3Client × Result A) (c : EmailClient)
      → Keeps n c
      → Keeps n (on_server f c.pop_server c).0
  on_server-Keeps f c k =
      Same-Keeps n c (on_server f c.pop_server c).0 (on_server-Same f c.pop_server c) k

  first_count-Keeps : (w : World) (c : EmailClient) → Keeps n c → Keeps n (first_count w c).0
  unfolding first_count
  first_count-Keeps w c k = simp (k.1) (k.0, refl)

  logged_in-Keeps :
      (after : Net) (next : EmailClient → Done) (p : EmailClient × Result Text)
      → ((c : EmailClient) → Keeps n c → Keeps n (next c).0)
      → Keeps n p.0
      → Keeps n (logged_in after next p).0
  logged_in-Keeps after next (c, ok resp) h k = h c k
  logged_in-Keeps after next (c, err e) h k = close_pop_server-Keeps after c k
  logged_in-Keeps after next (c, stuck) h k = k

  log_in-Keeps : (w : World) (c : EmailClient) → Keeps n c → Keeps n (log_in w c).0
  unfolding log_in
  log_in-Keeps w c k =
      logged_in-Keeps w.after
        (λ d.
          logged_in w.after (first_count w) (on_server (pass w.on_pass d.password) d.pop_server d))
        (on_server (user w.on_user c.username) c.pop_server c)
        (λ d h.
          logged_in-Keeps w.after (first_count w)
            (on_server (pass w.on_pass d.password) d.pop_server d) (first_count-Keeps w)
            (on_server-Keeps (pass w.on_pass d.password) d h))
        (on_server-Keeps (user w.on_user c.username) c k)

  connected-Keeps :
      (w : World) (r : Made) (c : EmailClient) → Keeps n c → Keeps n (connected w r c).0
  connected-Keeps w (s, ok u) c k = log_in-Keeps w (hold s c) k
  connected-Keeps w (s, err x) c k = k
  connected-Keeps w (s, stuck) c k = k

  to_service-Keeps :
      (w : World) (service : Option (Text × ℤ)) (c : EmailClient)
      → Keeps n c
      → Keeps n (to_service w service c).0
  to_service-Keeps w none c k = k
  to_service-Keeps w (some (host, port)) c k =
      connected-Keeps w
        (new_pop3_client_with_config w.is_address w.greeting w.dial (pop3_config host port c)) c k

  email_connect-Keeps : (w : World) (c : EmailClient) → Keeps n c → Keeps n (email_connect w c).0
  unfolding email_connect
  email_connect-Keeps w c k =
      let d = close_pop_server w.before c in
      to_service-Keeps w (server_config d.email_type) d (close_pop_server-Keeps w.before c k)

  reconnect-Keeps :
      (net : Net) (w : World) (c : EmailClient) → Keeps n c → Keeps n (reconnect net w c).0
  unfolding reconnect email_close
  reconnect-Keeps net w c k =
      email_connect-Keeps w (close_pop_server net c) (close_pop_server-Keeps net c k)

  get_email_content-Keeps :
      (m : Mime) (net : Net) (index : ℤ) (c : EmailClient)
      → Keeps n c
      → Keeps n (get_email_content m net index c).0
  unfolding get_email_content
  get_email_content-Keeps m net index c k = on_server-Keeps (retr net index) c k

  get_email_stats-Keeps :
      (net : Net) (c : EmailClient) → Keeps n c → Keeps n (get_email_stats net c).0
  unfolding get_email_stats
  get_email_stats-Keeps net c k = on_server-Keeps (stat net) c k

  latest-Keeps :
      (m : Mime) (net : Net) (from_filter subject_filter : Text) (p : EmailClient × Result (ℤ × ℤ))
      → Keeps n p.0
      → Keeps n (latest m net from_filter subject_filter p).0
  latest-Keeps m net f s (c, ok (count, size)) k =
      elim (Bool-cases (leb_ℤ count c.initial_email_count)) [
        | inl old ↦ simp (old) k
        | inr newer ↦ simp (newer) (get_email_content-Keeps m net count c k)
      ]
  latest-Keeps m net f s (c, err e) k = k
  latest-Keeps m net f s (c, stuck) k = k

  once_connected-Keeps :
      (m : Mime) (count_net net : Net) (from_filter subject_filter : Text) (p : Done)
      → Keeps n p.0
      → Keeps n (once_connected m count_net net from_filter subject_filter p).0
  once_connected-Keeps m count_net net f s (c, ok u) k =
      latest-Keeps m net f s (get_email_stats count_net c) (get_email_stats-Keeps count_net c k)
  once_connected-Keeps m count_net net f s (c, err e) k = k
  once_connected-Keeps m count_net net f s (c, stuck) k = k

-- A call that does not set another mailbox.
abbrev pub IsUse : Call → Type 0
IsUse (call_set cfg) = ⊥
IsUse (call_connect w) = Unit
IsUse (call_reconnect net w) = Unit
IsUse (call_close net) = Unit
IsUse (call_stats net) = Unit
IsUse (call_list net) = Unit
IsUse (call_content m net index) = Unit
IsUse (call_new_email m net w count_net mail_net from_filter subject_filter) = Unit

call-Keeps : (n : ℤ) (a : Call) (c : EmailClient) → IsUse a → Keeps n c → Keeps n (call a c)
unfolding call email_close get_email_list get_new_email
call-Keeps n (call_set cfg) c u k = absurd u
call-Keeps n (call_connect w) c u k = email_connect-Keeps n w c k
call-Keeps n (call_reconnect net w) c u k = reconnect-Keeps n net w c k
call-Keeps n (call_close net) c u k = close_pop_server-Keeps n net c k
call-Keeps n (call_stats net) c u k = get_email_stats-Keeps n net c k
call-Keeps n (call_list net) c u k = on_server-Keeps n (list net none) c k
call-Keeps n (call_content m net index) c u k = get_email_content-Keeps n m net index c k
call-Keeps n (call_new_email m net w count_net mail_net f s) c u k =
    once_connected-Keeps n m count_net mail_net f s (reconnect net w c)
      (reconnect-Keeps n net w c k)

-- The count that the first connection took stays the same in whatever calls follow, with any answers of
-- the network, up to the next setting of a mailbox.
pub run_mail-first_count :
    (calls : List Call) (c : EmailClient) (n : ℤ)
    → All IsUse calls
    → c.initial_email_count ≡ n
    → c.initial_count_set ≡ true
    → ((run_mail calls c).initial_email_count ≡ n) × ((run_mail calls c).initial_count_set ≡ true)
unfolding run_mail
run_mail-first_count [] c n u e s = (e, s)
run_mail-first_count (a ∷ calls) c n u e s =
    let (e', s') = call-Keeps n a c u.0 (e, s) in run_mail-first_count calls (call a c) n u.1 e' s'
