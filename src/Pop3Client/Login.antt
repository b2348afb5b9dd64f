-- ===== src/Pop3Client/Login.antt =====
-- pop3client/client.go: how a connection is made and secured, and APOP.
use public_golibs.Common.{
  Bool, true, false, ◌&&◌, ◌||◌, not, Option, none, some, [], ◌∷◌, ◌++◌, Text, codes, if◌then◌else◌,
  ◌==◌, is_empty, trim_space, drop,
}
use public_golibs.Common.Int.{ℤ, pos, negsuc}
use public_golibs.Common.Words.{format_int, has_prefix, contains}
use public_golibs.Pop3Client.Wire.{
  Error, closed, empty_host, protocol, network, Result, ok, err, stuck, Conn, Net, ProxyConfig,
  TlsConfig, Pop3Client, get_resp,
}
use public_golibs.Pop3Client.Commands.{short_cmd, close, on_conn}

-- net.ParseIP(host) != nil
abbrev pub IsAddress : Type 0
IsAddress = Text → Bool

abbrev pub pop3_port : ℤ
pop3_port = pos 110

abbrev pub pop3_ssl_port : ℤ
pop3_ssl_port = pos 995

-- 30 * time.Second
abbrev pub default_timeout : ℤ
default_timeout = pos 30000000000

abbrev z_is_zero : ℤ → Bool
z_is_zero (pos n) = n == 0
z_is_zero (negsuc n) = false

unfoldable pub first_non_empty : Text → Text → Text
first_non_empty value fallback = if not (is_empty (trim_space value)) then value else fallback

-- What stands from the first `<` on, up to the last `>`, in a welcome without a line feed.
abbrev from_angle : Text → Option Text
from_angle [] = none
from_angle (c ∷ s) = if c == b'<' then some (c ∷ s) else from_angle s

abbrev to_angle : Text → Option Text
to_angle [] = none
to_angle (c ∷ s) = elim (to_angle s) [
  | none ↦ if c == b'>' then some (c ∷ []) else none
  | some t ↦ some (c ∷ t)
]

abbrev angle_part : Option Text → Option Text
angle_part none = none
angle_part (some t) = to_angle t

abbrev after_ok : Text → Option Text
after_ok [] = none
after_ok (c ∷ s) =
    let later = after_ok s in
    if has_prefix (c ∷ s) (codes "+OK") then some (drop 3 (c ∷ s)) else later

abbrev skip_one : Option Text → Option Text
skip_one none = none
skip_one (some t) = angle_part (from_angle (drop 1 t))

-- The expression `\+OK.[^<]*(<.*>)`, and its group.
unfoldable pub apop_timestamp : Text → Option Text
unfolding has_prefix
apop_timestamp welcome = skip_one (after_ok welcome)

-- The digest is that of package crypto/md5, in hexadecimal digits.
unfoldable pub apop : (Text → Text) → Net → Text → Text → Pop3Client → Pop3Client × Result Text
unfolding short_cmd apop_timestamp
apop md5_hex net name password c = elim (apop_timestamp c.welcome) [
  | none ↦ (c, err (protocol (codes "-ERR APOP not supported by server")))
  | some stamp ↦ short_cmd net (codes "APOP " ++ (name ++ b' ' ∷ md5_hex (stamp ++ password))) c
]

-- The name that the certificate is checked for, and whether it is checked.
unfoldable pub tls_of : IsAddress → Pop3Client → TlsConfig
tls_of is_address c =
    let given = elim c.tls_config as (λ o. TlsConfig) [
      | none ↦ record { server_name = []; insecure_skip_verify = false }
      | some t ↦ t
    ] in
    record {
      server_name =
          if is_empty given.server_name && not (is_address c.host)
          then c.host
          else given.server_name;
      insecure_skip_verify =
          given.insecure_skip_verify || c.insecure_skip_verify || is_address c.host;
    }

abbrev pub shaken : Option Text × Text → Conn → Pop3Client → Pop3Client × Result (Unit {0})
shaken (some e, t) s c = (c, err (network e))
shaken (none, t) s c = (
  record c { conn = some (record s { is_tls = true; incoming = t }); tls_established = true },
  ok tt,
)

abbrev pub wrap_on : IsAddress → Net → Option Conn → Pop3Client → Pop3Client × Result (Unit {0})
wrap_on is_address net none c = (c, err closed)
wrap_on is_address net (some s) c = shaken (net.handshake (tls_of is_address c)) s c

unfoldable pub wrap_tls : IsAddress → Net → Pop3Client → Pop3Client × Result (Unit {0})
unfolding tls_of
wrap_tls is_address net c = wrap_on is_address net c.conn c

abbrev set_tls : Option TlsConfig → Pop3Client → Pop3Client
set_tls none c = c
set_tls (some t) c = record c { tls_config = some t }

abbrev wrapped : Text → Pop3Client × Result (Unit {0}) → Pop3Client × Result Text
wrapped resp (c, ok u) = (c, ok resp)
wrapped resp (c, err e) = (c, err e)
wrapped resp (c, stuck) = (c, stuck)

abbrev upgrade : IsAddress → Net → Pop3Client × Result Text → Pop3Client × Result Text
upgrade is_address net (c, ok resp) = wrapped resp (wrap_tls is_address net c)
upgrade is_address net (c, err e) = (c, err e)
upgrade is_address net (c, stuck) = (c, stuck)

unfoldable pub stls : IsAddress → Net → Option TlsConfig → Pop3Client → Pop3Client × Result Text
unfolding short_cmd wrap_tls
stls is_address net config c =
    if c.tls_established
    then (c, err (protocol (codes "-ERR TLS session already established")))
    else if c.implicit_tls
    then (record c { tls_established = true }, ok (codes "+OK TLS already established (SSL mode)"))
    else upgrade is_address net (short_cmd net (codes "STLS") (set_tls config c))

-- The connection that is dialled for an address, with the timeout, through the proxy.
abbrev pub Dial : Type 0
Dial = Text → ℤ → ProxyConfig → Result Conn

-- net.JoinHostPort
unfoldable pub join_host_port : Text → Text → Text
unfolding contains
join_host_port host port =
    if contains host (codes ":") || contains host (codes "%")
    then b'[' ∷ (host ++ (b']' ∷ b':' ∷ port))
    else host ++ b':' ∷ port

-- A failure closes the connection.
abbrev pub given_up {ℓ} : {A : Type ℓ} → Net → Pop3Client → Error → Pop3Client × Result A
given_up net c e = ((close net c).0, err e)

abbrev pub welcomed : Net → Pop3Client × Result Text → Pop3Client × Result (Unit {0})
welcomed net (c, ok text) = (record c { welcome = text }, ok tt)
welcomed net (c, err e) = given_up net c e
welcomed net (c, stuck) = (c, stuck)

abbrev pub greet : Net → Pop3Client × Result (Unit {0}) → Pop3Client × Result (Unit {0})
greet net (c, ok u) = welcomed net (on_conn get_resp c.conn c)
greet net (c, err e) = given_up net c e
greet net (c, stuck) = (c, stuck)

abbrev pub secured : IsAddress → Net → Bool → Pop3Client → Pop3Client × Result (Unit {0})
secured is_address net true c = wrap_tls is_address net c
secured is_address net false c = (c, ok tt)

abbrev pub dialled : IsAddress → Net → Result Conn → Pop3Client → Pop3Client × Result (Unit {0})
dialled is_address net (err e) c = (c, err e)
dialled is_address net stuck c = (c, stuck)
dialled is_address net (ok s) c =
    greet net (secured is_address net c.implicit_tls (record c { conn = some s }))

unfoldable pub connect : IsAddress → Net → Dial → Pop3Client → Pop3Client × Result (Unit {0})
unfolding wrap_tls get_resp close format_int join_host_port
connect is_address net dial c =
    dialled is_address net (dial (join_host_port c.host (format_int c.port)) c.timeout c.proxy) c

pub record Pop3Config : Type 0 where
  pub host : Text
  pub port : ℤ
  pub timeout : ℤ
  pub proxy : ProxyConfig
  pub tls_config : Option TlsConfig
  pub insecure_skip_verify : Bool

abbrev or_default : ℤ → ℤ → ℤ
or_default d n = if z_is_zero n then d else n

abbrev is_ssl : ℤ → Bool
is_ssl (pos n) = n == 995
is_ssl (negsuc n) = false

abbrev pub unconnected : Pop3Config → Pop3Client
unconnected cfg = record {
  host = cfg.host;
  port = or_default pop3_port cfg.port;
  timeout = or_default default_timeout cfg.timeout;
  proxy = cfg.proxy;
  tls_config = cfg.tls_config;
  insecure_skip_verify = cfg.insecure_skip_verify;
  conn = none;
  welcome = [];
  tls_established = false;
  implicit_tls = is_ssl (or_default pop3_port cfg.port);
}

-- The source gives nothing on a failure; the client of that attempt is kept beside the result, so that
-- what became of its connection can be said.
abbrev pub Made : Type 0
Made = Pop3Client × Result (Unit {0})

unfoldable pub new_pop3_client_with_config : IsAddress → Net → Dial → Pop3Config → Made
unfolding connect
new_pop3_client_with_config is_address net dial cfg =
    if is_empty (trim_space cfg.host)
    then (unconnected cfg, err empty_host)
    else connect is_address net dial (unconnected cfg)

abbrev no_proxy : ProxyConfig
no_proxy = record { kind = []; host = []; port = pos 0; username = []; password = [] }

abbrev config_of : Text → ℤ → Option Pop3Config → Pop3Config
config_of host port none = record {
  host = host;
  port = port;
  timeout = default_timeout;
  proxy = no_proxy;
  tls_config = none;
  insecure_skip_verify = false;
}
config_of host port (some given) = record given {
  host = first_non_empty given.host host;
  port = or_default port given.port;
  timeout = or_default default_timeout given.timeout;
}

unfoldable pub new_pop3_client : IsAddress → Net → Dial → Text → ℤ → Option Pop3Config → Made
unfolding new_pop3_client_with_config first_non_empty
new_pop3_client is_address net dial host port config =
    new_pop3_client_with_config is_address net dial (config_of host port config)
