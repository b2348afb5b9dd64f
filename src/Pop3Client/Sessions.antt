-- ===== src/Pop3Client/Sessions.antt =====
-- pop3client/email_client.go: the calls of a mailbox in any order, and the connections they make.
use public_golibs.Common.{
  ◌≡◌, refl, true, Option, none, some, List, ◌++◌, Text, codes, Bool-cases, inl, inr, All,
}
use public_golibs.Common.Int.{ℤ}
use public_golibs.Pop3Client.Wire.{Result, ok, err, stuck, Net, Pop3Client}
use public_golibs.Pop3Client.Commands.{user, pass, stat}
use public_golibs.Pop3Client.Login.{Made, new_pop3_client_with_config}
use public_golibs.Pop3Client.Opens.{
  IsOpen, Settled, short_cmd-IsOpen, quit-closes, new_pop3_client_with_config-Settled,
}
use public_golibs.Pop3Client.Email.{
  EmailClient, World, Done, close_pop_server, on_server, get_email_stats, email_close,
  email_connect, reconnect, server_config, log_in, first_count, pop3_config, leave, logged_in,
  counted, connected, to_service, overwritten, hold,
}

abbrev pub Held : Option Pop3Client → Type 0
Held none = Unit
Held (some s) = IsOpen s.conn

abbrev pub IsHeld : Option Pop3Client → Type 0
IsHeld none = ⊥
IsHeld (some s) = Unit

-- The connection that the client holds is open, and all others that were made for it are closed.
pub record Tidy (c : EmailClient) : Type 0 where
  pub held : Held c.pop_server
  pub closed_left : All (λ s. s.conn ≡ none) c.left

leave-Tidy : (net : Net) (o : Option Pop3Client) (c : EmailClient) → Tidy c → Tidy (leave net o c)
leave-Tidy net none c t = t
leave-Tidy net (some s) c t = record { held = tt; closed_left = (quit-closes net s, t.closed_left) }

leave-none :
    (net : Net) (o : Option Pop3Client) (c : EmailClient)
    → c.pop_server ≡ o
    → (leave net o c).pop_server ≡ none
leave-none net none c e = e
leave-none net (some s) c e = refl

pub close_pop_server-Tidy : (net : Net) (c : EmailClient) → Tidy c → Tidy (close_pop_server net c)
unfolding close_pop_server
close_pop_server-Tidy net c t = leave-Tidy net c.pop_server c t

pub close_pop_server-none :
    (net : Net) (c : EmailClient) → (close_pop_server net c).pop_server ≡ none
unfolding close_pop_server
close_pop_server-none net c = leave-none net c.pop_server c refl

-- After a success the client holds a connection.
abbrev pub HeldIfOk {ℓ} : {A : Type ℓ} → EmailClient × Result A → Type 0
HeldIfOk (c, ok a) = Tidy c × IsHeld c.pop_server
HeldIfOk (c, err e) = Tidy c
HeldIfOk (c, stuck) = Tidy c

answered-HeldIfOk {ℓ} :
    {A : Type ℓ} (c : EmailClient) (r : Result A) → Tidy c → IsHeld c.pop_server → HeldIfOk (c, r)
answered-HeldIfOk c (ok a) t h = (t, h)
answered-HeldIfOk c (err e) t h = t
answered-HeldIfOk c stuck t h = t

pub HeldIfOk-Tidy {ℓ} : {A : Type ℓ} (p : EmailClient × Result A) → HeldIfOk p → Tidy p.0
HeldIfOk-Tidy (c, ok a) h = h.0
HeldIfOk-Tidy (c, err e) h = h
HeldIfOk-Tidy (c, stuck) h = h

pub on_server-HeldIfOk {ℓ} :
    {A : Type ℓ} (call : Pop3Client → Pop3Client × Result A) (o : Option Pop3Client)
    (c : EmailClient)
    → ((s : Pop3Client) → IsOpen s.conn → IsOpen (call s).0.conn)
    → Tidy c
    → Held o
    → HeldIfOk (on_server call o c)
on_server-HeldIfOk call none c k t h = t
on_server-HeldIfOk call (some s) c k t h =
    answered-HeldIfOk (record c { pop_server = some (call s).0 }) (call s).1
      (record { held = k s h; closed_left = t.closed_left }) tt

pub get_email_stats-HeldIfOk :
    (net : Net) (c : EmailClient) → Tidy c → HeldIfOk (get_email_stats net c)
unfolding get_email_stats stat
get_email_stats-HeldIfOk net c t =
    on_server-HeldIfOk (stat net) c.pop_server c (λ s h. short_cmd-IsOpen net (codes "STAT") s h) t
      t.held

-- After a success of Connect the client holds a connection and has its first count, after a failure it
-- holds none.
abbrev pub Ready : Done → Type 0
Ready (c, ok u) = Tidy c × IsHeld c.pop_server × (c.initial_count_set ≡ true)
Ready (c, err e) = Tidy c × (c.pop_server ≡ none)
Ready (c, stuck) = Tidy c

counted-Ready :
    (after : Net) (p : EmailClient × Result (ℤ × ℤ)) → HeldIfOk p → Ready (counted after p)
counted-Ready after (c, ok (count, size)) h =
    (record { held = h.0.held; closed_left = h.0.closed_left }, h.1, refl)
counted-Ready after (c, err e) h = (close_pop_server-Tidy after c h, close_pop_server-none after c)
counted-Ready after (c, stuck) h = h

first_count-Ready :
    (w : World) (c : EmailClient) → Tidy c → IsHeld c.pop_server → Ready (first_count w c)
unfolding first_count
first_count-Ready w c t h = elim (Bool-cases c.initial_count_set) [
  | inl taken ↦ simp (taken) (t, h, refl)
  | inr not_taken ↦
      simp (not_taken) (
        counted-Ready w.after (get_email_stats w.on_stat c)
          (get_email_stats-HeldIfOk w.on_stat c t))
]

logged_in-Ready :
    (after : Net) (next : EmailClient → Done) (p : EmailClient × Result Text)
    → ((c : EmailClient) → Tidy c → IsHeld c.pop_server → Ready (next c))
    → HeldIfOk p
    → Ready (logged_in after next p)
logged_in-Ready after next (c, ok resp) k h = k c h.0 h.1
logged_in-Ready after next (c, err e) k h =
    (close_pop_server-Tidy after c h, close_pop_server-none after c)
logged_in-Ready after next (c, stuck) k h = h

log_in-Ready : (w : World) (c : EmailClient) → Tidy c → Ready (log_in w c)
unfolding log_in user pass
log_in-Ready w c t =
    logged_in-Ready w.after
      (λ d.
        logged_in w.after (first_count w) (on_server (pass w.on_pass d.password) d.pop_server d))
      (on_server (user w.on_user c.username) c.pop_server c)
      (λ d u h.
        logged_in-Ready w.after (first_count w)
          (on_server (pass w.on_pass d.password) d.pop_server d) (first_count-Ready w)
          (on_server-HeldIfOk (pass w.on_pass d.password) d.pop_server d
            (λ s o. short_cmd-IsOpen w.on_pass (codes "PASS " ++ d.password) s o) u u.held))
      (on_server-HeldIfOk (user w.on_user c.username) c.pop_server c
        (λ s o. short_cmd-IsOpen w.on_user (codes "USER " ++ c.username) s o) t t.held)

overwritten-closed :
    (o : Option Pop3Client) (left : List Pop3Client)
    → o ≡ none
    → All (λ s. s.conn ≡ none) left
    → All (λ s. s.conn ≡ none) (overwritten o left)
overwritten-closed none left e h = h
overwritten-closed (some s) left e h = cc

connected-Ready :
    (w : World) (r : Made) (c : EmailClient)
    → Settled r
    → Tidy c
    → c.pop_server ≡ none
    → Ready (connected w r c)
connected-Ready w (s, ok u) c m t e =
    log_in-Ready w (hold s c)
      (record { held = m; closed_left = overwritten-closed c.pop_server c.left e t.closed_left })
connected-Ready w (s, err x) c m t e =
    (record { held = t.held; closed_left = (m, t.closed_left) }, e)
connected-Ready w (s, stuck) c m t e = t

to_service-Ready :
    (w : World) (service : Option (Text × ℤ)) (c : EmailClient)
    → Tidy c
    → c.pop_server ≡ none
    → Ready (to_service w service c)
to_service-Ready w none c t e = (t, e)
to_service-Ready w (some (host, port)) c t e =
    connected-Ready w
      (new_pop3_client_with_config w.is_address w.greeting w.dial (pop3_config host port c)) c
      (new_pop3_client_with_config-Settled w.is_address w.greeting w.dial (pop3_config host port c))
      t e

-- Connect, of a client whose connections are in order, leaves them in order, whatever the network
-- answers. After a success the client holds an open connection and the first count is taken; after a
-- failure it holds none. All other connections that were made for it, the one of this call included when
-- its handshake, greeting, login or first count failed, are closed.
pub email_connect-Ready : (w : World) (c : EmailClient) → Tidy c → Ready (email_connect w c)
unfolding email_connect
email_connect-Ready w c t =
    let d = close_pop_server w.before c in
    to_service-Ready w (server_config d.email_type) d (close_pop_server-Tidy w.before c t)
      (close_pop_server-none w.before c)

pub Ready-Tidy : (p : Done) → Ready p → Tidy p.0
Ready-Tidy (c, ok u) h = h.0
Ready-Tidy (c, err e) h = h.0
Ready-Tidy (c, stuck) h = h

pub reconnect-Ready : (net : Net) (w : World) (c : EmailClient) → Tidy c → Ready (reconnect net w c)
unfolding reconnect email_close
reconnect-Ready net w c t =
    email_connect-Ready w (close_pop_server net c) (close_pop_server-Tidy net c t)
