-- ===== src/Pop3Client/Opens.antt =====
-- pop3client/client.go: which calls leave a connection open, and which close it.
use public_golibs.Common.{
  ℕ, ◌≡◌, refl, Bool, true, false, Option, none, some, Text, codes, ◌++◌, is_empty, trim_space,
  Bool-cases, inl, inr,
}
use public_golibs.Common.Words.{format_int}
use public_golibs.Pop3Client.Wire.{
  Result, ok, err, stuck, Conn, Net, Pop3Client, put_line, get_resp, get_long_resp, crlf, put_on,
  written,
}
use public_golibs.Pop3Client.Commands.{
  on_conn, after_put, short_cmd, long_cmd, close, quit, close_on,
}
use public_golibs.Pop3Client.Login.{
  IsAddress, Dial, connect, wrap_tls, Pop3Config, unconnected, new_pop3_client_with_config, shaken,
  welcomed, greet, dialled, join_host_port, secured, wrap_on, tls_of,
}

abbrev pub IsOpen : Option Conn → Type 0
IsOpen none = ⊥
IsOpen (some s) = Unit

written-IsOpen :
    (line : Text) (e : Option (ℕ × Text)) (s : Conn) (c : Pop3Client)
    → IsOpen (written line e s c).0.conn
written-IsOpen line none s c = tt
written-IsOpen line (some (n, e)) s c = tt

put_on-IsOpen :
    (net : Net) (line : Text) (o : Option Conn) (c : Pop3Client)
    → IsOpen c.conn
    → IsOpen (put_on net line o c).0.conn
put_on-IsOpen net line none c h = h
put_on-IsOpen net line (some s) c h = written-IsOpen line (net.write_error line) s c

on_conn-IsOpen {ℓ} :
    {A : Type ℓ} (read : Conn → Conn × Result A) (o : Option Conn) (c : Pop3Client)
    → IsOpen c.conn
    → IsOpen (on_conn read o c).0.conn
on_conn-IsOpen read none c h = h
on_conn-IsOpen read (some s) c h = tt

after_put-IsOpen {ℓ} :
    {A : Type ℓ} (read : Conn → Conn × Result A) (p : Pop3Client × Result (Unit {0}))
    → IsOpen p.0.conn
    → IsOpen (after_put read p).0.conn
after_put-IsOpen read (c, ok u) h = on_conn-IsOpen read c.conn c h
after_put-IsOpen read (c, err e) h = h
after_put-IsOpen read (c, stuck) h = h

pub short_cmd-IsOpen :
    (net : Net) (line : Text) (c : Pop3Client)
    → IsOpen c.conn
    → IsOpen (short_cmd net line c).0.conn
unfolding short_cmd put_line
short_cmd-IsOpen net line c h =
    after_put-IsOpen get_resp (put_line net line c) (put_on-IsOpen net (line ++ crlf) c.conn c h)

pub long_cmd-IsOpen :
    (net : Net) (line : Text) (c : Pop3Client) → IsOpen c.conn → IsOpen (long_cmd net line c).0.conn
unfolding long_cmd put_line
long_cmd-IsOpen net line c h =
    after_put-IsOpen get_long_resp (put_line net line c)
      (put_on-IsOpen net (line ++ crlf) c.conn c h)

close_on-closes :
    (net : Net) (o : Option Conn) (c : Pop3Client) → c.conn ≡ o → (close_on net o c).0.conn ≡ none
close_on-closes net none c h = h
close_on-closes net (some s) c h = refl

pub close-closes : (net : Net) (c : Pop3Client) → (close net c).0.conn ≡ none
unfolding close
close-closes net c = close_on-closes net c.conn c refl

pub quit-closes : (net : Net) (c : Pop3Client) → (quit net c).0.conn ≡ none
unfolding quit
quit-closes net c = close-closes net (short_cmd net (codes "QUIT") c).0

-- A connection is open after a success, and closed after a failure.
abbrev pub Settled : Pop3Client × Result (Unit {0}) → Type 0
Settled (c, ok u) = IsOpen c.conn
Settled (c, err e) = c.conn ≡ none
Settled (c, stuck) = Unit

-- Before the answer of the server a failure may leave a connection that is still open.
abbrev OpenIfOk : Pop3Client × Result (Unit {0}) → Type 0
OpenIfOk (c, ok u) = IsOpen c.conn
OpenIfOk (c, err e) = Unit
OpenIfOk (c, stuck) = Unit

welcomed-Settled :
    (net : Net) (p : Pop3Client × Result Text) → IsOpen p.0.conn → Settled (welcomed net p)
welcomed-Settled net (c, ok text) h = h
welcomed-Settled net (c, err e) h = close-closes net c
welcomed-Settled net (c, stuck) h = tt

greet-Settled :
    (net : Net) (p : Pop3Client × Result (Unit {0})) → OpenIfOk p → Settled (greet net p)
greet-Settled net (c, ok u) h =
    welcomed-Settled net (on_conn get_resp c.conn c) (on_conn-IsOpen get_resp c.conn c h)
greet-Settled net (c, err e) h = close-closes net c
greet-Settled net (c, stuck) h = tt

shaken-OpenIfOk : (r : Option Text × Text) (s : Conn) (c : Pop3Client) → OpenIfOk (shaken r s c)
shaken-OpenIfOk (some e, t) s c = tt
shaken-OpenIfOk (none, t) s c = tt

wrap_on-OpenIfOk :
    (is_address : IsAddress) (net : Net) (o : Option Conn) (c : Pop3Client)
    → OpenIfOk (wrap_on is_address net o c)
wrap_on-OpenIfOk is_address net none c = tt
wrap_on-OpenIfOk is_address net (some s) c =
    shaken-OpenIfOk (net.handshake (tls_of is_address c)) s c

secured-OpenIfOk :
    (is_address : IsAddress) (net : Net) (implicit : Bool) (c : Pop3Client)
    → IsOpen c.conn
    → OpenIfOk (secured is_address net implicit c)
unfolding wrap_tls
secured-OpenIfOk is_address net true c h = wrap_on-OpenIfOk is_address net c.conn c
secured-OpenIfOk is_address net false c h = h

dialled-Settled :
    (is_address : IsAddress) (net : Net) (r : Result Conn) (c : Pop3Client)
    → c.conn ≡ none
    → Settled (dialled is_address net r c)
dialled-Settled is_address net (err e) c h = h
dialled-Settled is_address net stuck c h = tt
dialled-Settled is_address net (ok s) c h =
    let held = record c { conn = some s } in
    greet-Settled net (secured is_address net c.implicit_tls held)
      (secured-OpenIfOk is_address net c.implicit_tls held tt)

-- Connecting a client that has no connection leaves it with an open one when it succeeds, and with none
-- when the handshake or the welcome fails, whatever the network answers.
pub connect-Settled :
    (is_address : IsAddress) (net : Net) (dial : Dial) (c : Pop3Client)
    → c.conn ≡ none
    → Settled (connect is_address net dial c)
unfolding connect
connect-Settled is_address net dial c h =
    dialled-Settled is_address net
      (dial (join_host_port c.host (format_int c.port)) c.timeout c.proxy) c h

-- A client that was made has an open connection, and one that could not be made has none.
pub new_pop3_client_with_config-Settled :
    (is_address : IsAddress) (net : Net) (dial : Dial) (cfg : Pop3Config)
    → Settled (new_pop3_client_with_config is_address net dial cfg)
unfolding new_pop3_client_with_config
new_pop3_client_with_config-Settled is_address net dial cfg =
    elim (Bool-cases (is_empty (trim_space cfg.host))) [
      | inl blank ↦ rw blank refl
      | inr given ↦ rw given (connect-Settled is_address net dial (unconnected cfg) refl)
    ]
