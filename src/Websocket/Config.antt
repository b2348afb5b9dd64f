-- ===== src/Websocket/Config.antt =====
-- websocket/config.go: the options of a client. Headers are a list of keys with their values; a TLS
-- configuration is a reference, and any value is a text, bytes, a composite or a simple one.
use public_golibs.Common.{
  ℕ, ◌*◌, Bool, true, false, Option, none, some, List, [], ◌∷◌, Text, codes, if◌then◌else◌, text_eq,
}
use public_golibs.Common.Int.{ℤ, pos}

pub record ProxyConfig : Type 0 where
  pub address : Text
  pub kind : Text
  pub username : Text
  pub password : Text

pub record HeartbeatConfig : Type 0 where
  pub enabled : Bool
  pub interval : ℤ
  pub timeout : ℤ

-- Maps, slices, arrays and structs are composites.
pub data Any : Type 0 where
  nil : Any
  string : Text → Any
  byte_slice : List ℕ → Any
  composite simple : Text → Any

pub record ApplicationHeartbeatConfig : Type 0 where
  pub enabled : Bool
  pub message : Any
  pub interval : ℤ
  pub mode : Text
  pub immediate : Bool

abbrev pub Headers : Type 0
Headers = List (Text × List Text)

pub record Config : Type 0 where
  pub url : Text
  pub headers : Option Headers
  pub subprotocols : List Text
  pub origin : Text
  pub user_agent : Text
  pub open_timeout : ℤ
  pub close_timeout : ℤ
  pub read_timeout : ℤ
  pub write_timeout : ℤ
  pub max_message_size : ℤ
  pub enable_compression : Bool
  pub tls_config : Option ℕ
  pub proxy : Option ProxyConfig
  pub use_env_proxy : Bool
  pub heartbeat : HeartbeatConfig
  pub app_heartbeat : ApplicationHeartbeatConfig
  pub auto_connect : Bool
  pub read_buffer_size : ℤ
  pub write_buffer_size : ℤ

-- Times are numbers of nanoseconds.
abbrev pub seconds : ℕ → ℤ
seconds n = pos (n * 1000000000)

abbrev pub default_open_timeout : ℤ
default_open_timeout = seconds 10

abbrev pub default_close_timeout : ℤ
default_close_timeout = seconds 10

abbrev pub default_write_timeout : ℤ
default_write_timeout = seconds 10

abbrev pub default_heartbeat_interval : ℤ
default_heartbeat_interval = seconds 20

abbrev pub default_heartbeat_timeout : ℤ
default_heartbeat_timeout = seconds 20

abbrev pub default_app_heartbeat_interval : ℤ
default_app_heartbeat_interval = seconds 30

abbrev pub default_max_message_size : ℤ
default_max_message_size = pos 1048576

abbrev pub default_config : Text → Config
default_config url = record {
  url = url;
  headers = some [];
  subprotocols = [];
  origin = [];
  user_agent = [];
  open_timeout = default_open_timeout;
  close_timeout = default_close_timeout;
  read_timeout = pos 0;
  write_timeout = default_write_timeout;
  max_message_size = default_max_message_size;
  enable_compression = true;
  tls_config = none;
  proxy = none;
  use_env_proxy = false;
  heartbeat = record {
    enabled = false;
    interval = default_heartbeat_interval;
    timeout = default_heartbeat_timeout;
  };
  app_heartbeat = record {
    enabled = false;
    message = string (codes "ping");
    interval = default_app_heartbeat_interval;
    mode = [];
    immediate = false;
  };
  auto_connect = false;
  read_buffer_size = pos 0;
  write_buffer_size = pos 0;
}

-- The key in the form in which net/textproto writes it.
abbrev pub Canonical : Type 0
Canonical = Text → Text

abbrev pub put_header : Text → Text → Headers → Headers
put_header key value [] = (key, value ∷ []) ∷ []
put_header key value ((k, vs) ∷ rest) =
    if text_eq k key then (k, value ∷ []) ∷ rest else (k, vs) ∷ put_header key value rest

-- http.Header's Set
unfoldable pub set_header : Canonical → Text → Text → Headers → Headers
set_header canonical key value headers = put_header (canonical key) value headers

abbrev pub or_empty : Option Headers → Headers
or_empty none = []
or_empty (some headers) = headers

abbrev pub set_headers : Canonical → List (Text × Text) → Headers → Headers
set_headers canonical [] headers = headers
set_headers canonical ((key, value) ∷ more) headers =
    set_headers canonical more (set_header canonical key value headers)

unfoldable pub with_headers : Canonical → List (Text × Text) → Config → Config
unfolding set_header
with_headers canonical headers cfg = record cfg {
  headers = some (set_headers canonical headers (or_empty cfg.headers));
}

unfoldable pub with_header : Canonical → Text → Text → Config → Config
unfolding set_header
with_header canonical key value cfg = record cfg {
  headers = some (set_header canonical key value (or_empty cfg.headers));
}

abbrev pub with_subprotocols : List Text → Config → Config
with_subprotocols protocols cfg = record cfg { subprotocols = protocols }

abbrev pub with_origin : Text → Config → Config
with_origin origin cfg = record cfg { origin = origin }

abbrev pub with_user_agent : Text → Config → Config
with_user_agent user_agent cfg = record cfg { user_agent = user_agent }

abbrev pub with_timeout : ℤ → ℤ → ℤ → Config → Config
with_timeout open_time read_time write_time cfg = record cfg {
  open_timeout = open_time;
  read_timeout = read_time;
  write_timeout = write_time;
}

abbrev pub with_read_timeout : ℤ → Config → Config
with_read_timeout timeout cfg = record cfg { read_timeout = timeout }

abbrev pub with_write_timeout : ℤ → Config → Config
with_write_timeout timeout cfg = record cfg { write_timeout = timeout }

abbrev pub with_close_timeout : ℤ → Config → Config
with_close_timeout timeout cfg = record cfg { close_timeout = timeout }

abbrev pub with_max_message_size : ℤ → Config → Config
with_max_message_size size cfg = record cfg { max_message_size = size }

abbrev pub with_compression : Bool → Config → Config
with_compression enabled cfg = record cfg { enable_compression = enabled }

abbrev pub with_tls_config : Option ℕ → Config → Config
with_tls_config tls cfg = record cfg { tls_config = tls }

abbrev pub with_proxy_config : ProxyConfig → Config → Config
with_proxy_config proxy cfg = record cfg { proxy = some proxy; use_env_proxy = false }

abbrev pub with_proxy_auth : Text → Text → Text → Text → Config → Config
with_proxy_auth address kind username password cfg =
    with_proxy_config
      (record { address = address; kind = kind; username = username; password = password }) cfg

abbrev pub with_proxy : Text → Text → Config → Config
with_proxy address kind cfg = with_proxy_auth address kind [] [] cfg

abbrev pub without_proxy : Config → Config
without_proxy cfg = record cfg { proxy = none; use_env_proxy = false }

abbrev pub with_env_proxy : Config → Config
with_env_proxy cfg = record cfg { proxy = none; use_env_proxy = true }

abbrev pub with_heartbeat : Bool → ℤ → ℤ → Config → Config
with_heartbeat enabled interval timeout cfg = record cfg {
  heartbeat = record { enabled = enabled; interval = interval; timeout = timeout };
}

abbrev pub with_app_heartbeat : Any → ℤ → Text → Bool → Config → Config
with_app_heartbeat message interval mode immediate cfg = record cfg {
  app_heartbeat = record {
    enabled = true;
    message = message;
    interval = interval;
    mode = mode;
    immediate = immediate;
  };
}

abbrev pub without_app_heartbeat : Config → Config
without_app_heartbeat cfg = record cfg {
  app_heartbeat = record cfg.app_heartbeat { enabled = false };
}

abbrev pub with_auto_connect : Bool → Config → Config
with_auto_connect enabled cfg = record cfg { auto_connect = enabled }
