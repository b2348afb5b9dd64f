-- ===== src/Pop3Client/Email.antt =====
-- pop3client/email_client.go: a mailbox at one of two services. The answers of the network differ from
-- call to call, and stand in World in the order of the calls of a method.
use public_golibs.Common.{
  Bool, true, false, Option, none, some, List, [], ◌∷◌, Text, codes, if◌then◌else◌, ◌==◌, text_eq,
  trim_space,
}
use public_golibs.Common.Int.{ℤ, pos, negsuc, ltb_ℤ}
use public_golibs.Common.Words.{contains, to_lower, trim_prefix}
use public_golibs.Pop3Client.Wire.{
  Error, closed, unsupported_email_type, empty_host, protocol, network, syntax, plain, Result, ok,
  err, stuck, Net, ProxyConfig, Pop3Client,
}
use public_golibs.Pop3Client.Commands.{user, pass, stat, quit}
use public_golibs.Pop3Client.Login.{
  IsAddress, Dial, Pop3Config, pop3_ssl_port, default_timeout, Made, new_pop3_client_with_config,
}

pub record EmailConfig : Type 0 where
  pub username : Text
  pub password : Text
  pub proxy : ProxyConfig
  pub timeout : ℤ

-- `left` is no field of the source: it has, as they are now, all the connections that were made for the
-- client and that it does not hold any more: given up, overwritten by another, or failed while they were
-- made.
pub record EmailClient : Type 0 where
  pub pop_server : Option Pop3Client
  pub email_type : Text
  pub username : Text
  pub password : Text
  pub initial_email_count : ℤ
  pub initial_count_set : Bool
  pub proxy : ProxyConfig
  pub timeout : ℤ
  pub left : List Pop3Client

-- `before` is for the QUIT of an earlier connection, `after` for that of one that is given up.
pub record World : Type 0 where
  pub is_address : IsAddress
  pub before : Net
  pub dial : Dial
  pub greeting : Net
  pub on_user : Net
  pub on_pass : Net
  pub on_stat : Net
  pub after : Net

abbrev no_proxy : ProxyConfig
no_proxy = record { kind = []; host = []; port = pos 0; username = []; password = [] }

abbrev pub new_email_client : EmailClient
new_email_client = record {
  pop_server = none;
  email_type = [];
  username = [];
  password = [];
  initial_email_count = pos 0;
  initial_count_set = false;
  proxy = no_proxy;
  timeout = default_timeout;
  left = [];
}

unfoldable pub detect_email_type : Text → Option Text
unfolding contains
detect_email_type username =
    let name = to_lower username in
    if contains name (codes "@126.com")
    then some (codes "126")
    else if contains name (codes "@163.com")
    then some (codes "163")
    else none

abbrev z_is_zero : ℤ → Bool
z_is_zero (pos n) = n == 0
z_is_zero (negsuc n) = false

abbrev pub next_timeout : ℤ → ℤ → ℤ
next_timeout given old =
    if ltb_ℤ (pos 0) given then given else if z_is_zero old then default_timeout else old

abbrev pub configured : Option Text → EmailConfig → EmailClient → EmailClient × Result (Unit {0})
configured none cfg c = (c, err unsupported_email_type)
configured (some kind) cfg c = (
  record c {
    email_type = kind;
    username = cfg.username;
    password = cfg.password;
    initial_email_count = pos 0;
    initial_count_set = false;
    proxy = cfg.proxy;
    timeout = next_timeout cfg.timeout c.timeout;
  },
  ok tt,
)

unfoldable pub set_email_with_config : EmailConfig → EmailClient → EmailClient × Result (Unit {0})
unfolding detect_email_type
set_email_with_config cfg c = configured (detect_email_type cfg.username) cfg c

unfoldable pub set_email : Text → Text → EmailClient → EmailClient × Result (Unit {0})
unfolding set_email_with_config
set_email username password c =
    set_email_with_config
      (record { username = username; password = password; proxy = no_proxy; timeout = c.timeout }) c

abbrev made : EmailClient × Result (Unit {0}) → Result EmailClient
made (c, ok u) = ok c
made (c, err e) = err e
made (c, stuck) = stuck

unfoldable pub new_email_client_with_config : EmailConfig → Result EmailClient
unfolding set_email_with_config
new_email_client_with_config cfg = made (set_email_with_config cfg new_email_client)

-- The text of an error; those of `syntax` do not come here.
abbrev pub message : Error → Text
message closed = codes "pop3 client is closed"
message unsupported_email_type = codes "邮箱类型错误"
message empty_host = codes "pop3 host is empty"
message (protocol t) = t
message (network t) = t
message (syntax t) = t
message (plain t) = t

abbrev or_given : Error → Text → Error
or_given e [] = e
or_given e (c ∷ t) = plain (c ∷ t)

unfoldable pub clean_email_error : Error → Error
unfolding trim_prefix
clean_email_error e = or_given e (trim_space (trim_prefix (message e) (codes "-ERR ")))

abbrev pub leave : Net → Option Pop3Client → EmailClient → EmailClient
leave net none c = c
leave net (some s) c = record c { pop_server = none; left = (quit net s).0 ∷ c.left }

-- closePopServer, and what Connect does first
unfoldable pub close_pop_server : Net → EmailClient → EmailClient
unfolding quit
close_pop_server net c = leave net c.pop_server c

unfoldable pub email_close : Net → EmailClient → EmailClient
unfolding close_pop_server
email_close net c = close_pop_server net c

-- A call of the server that the client holds.
abbrev pub on_server {ℓ} :
    {A : Type ℓ}
    → (Pop3Client → Pop3Client × Result A)
    → Option Pop3Client
    → EmailClient
    → EmailClient × Result A
on_server call none c = (c, err closed)
on_server call (some s) c = let (t, r) = call s in (record c { pop_server = some t }, r)

unfoldable pub get_email_stats : Net → EmailClient → EmailClient × Result (ℤ × ℤ)
unfolding stat
get_email_stats net c = on_server (stat net) c.pop_server c

unfoldable pub server_config : Text → Option (Text × ℤ)
server_config kind =
    if text_eq kind (codes "163")
    then some (codes "pop.163.com", pop3_ssl_port)
    else if text_eq kind (codes "126")
    then some (codes "pop.126.com", pop3_ssl_port)
    else none

abbrev pub Done : Type 0
Done = EmailClient × Result (Unit {0})

-- A login that fails closes the connection.
abbrev pub logged_in : Net → (EmailClient → Done) → EmailClient × Result Text → Done
logged_in after next (c, ok resp) = next c
logged_in after next (c, err e) = (close_pop_server after c, err (clean_email_error e))
logged_in after next (c, stuck) = (c, stuck)

abbrev pub counted : Net → EmailClient × Result (ℤ × ℤ) → Done
counted after (c, ok (count, size)) =
    (record c { initial_email_count = count; initial_count_set = true }, ok tt)
counted after (c, err e) = (close_pop_server after c, err e)
counted after (c, stuck) = (c, stuck)

unfoldable pub first_count : World → EmailClient → Done
unfolding get_email_stats close_pop_server
first_count w c =
    if c.initial_count_set then (c, ok tt) else counted w.after (get_email_stats w.on_stat c)

unfoldable pub log_in : World → EmailClient → Done
unfolding user pass close_pop_server clean_email_error first_count
log_in w c =
    logged_in w.after
      (λ d.
        logged_in w.after (first_count w) (on_server (pass w.on_pass d.password) d.pop_server d))
      (on_server (user w.on_user c.username) c.pop_server c)

-- An assignment of the field does nothing to the connection that was there before.
abbrev pub overwritten : Option Pop3Client → List Pop3Client → List Pop3Client
overwritten none left = left
overwritten (some s) left = s ∷ left

abbrev pub hold : Pop3Client → EmailClient → EmailClient
hold s c = record c { pop_server = some s; left = overwritten c.pop_server c.left }

abbrev pub connected : World → Made → EmailClient → Done
connected w (s, ok u) c = log_in w (hold s c)
connected w (s, err e) c = (record c { left = s ∷ c.left }, err (clean_email_error e))
connected w (s, stuck) c = (c, stuck)

abbrev pub pop3_config : Text → ℤ → EmailClient → Pop3Config
pop3_config host port c = record {
  host = host;
  port = port;
  timeout = c.timeout;
  proxy = c.proxy;
  tls_config = none;
  insecure_skip_verify = false;
}

abbrev pub to_service : World → Option (Text × ℤ) → EmailClient → Done
to_service w none c = (c, err unsupported_email_type)
to_service w (some (host, port)) c =
    connected w
      (new_pop3_client_with_config w.is_address w.greeting w.dial (pop3_config host port c)) c

unfoldable pub email_connect : World → EmailClient → Done
unfolding close_pop_server server_config new_pop3_client_with_config log_in clean_email_error
email_connect w c =
    let d = close_pop_server w.before c in to_service w (server_config d.email_type) d

unfoldable pub reconnect : Net → World → EmailClient → Done
unfolding email_close email_connect
reconnect net w c = email_connect w (email_close net c)
