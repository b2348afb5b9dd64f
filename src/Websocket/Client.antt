-- ===== src/Websocket/Client.antt =====
-- websocket/client.go: connecting and closing. One method runs at a time: each runs to its end before the
-- next, and the heartbeats beat between them.
use public_golibs.Common.{
  ℕ, Bool, true, false, Option, none, some, List, [], ◌∷◌, ◌++◌, Text, codes, if◌then◌else◌,
  is_empty, ◌⊎◌, inl, inr,
}
use public_golibs.Common.Int.{ℤ, pos, ltb_ℤ}
use public_golibs.Websocket.Config.{
  Any, Headers, Config, default_config, Canonical, set_header, or_empty,
}
use public_golibs.Websocket.Normalize.{normalize, ConfigError, check_config}
use public_golibs.Websocket.Proxy.{
  Urls, Url, ProxyError, Route, proxy_url, socks5_dial, proxy_from_config,
}

pub data MessageType : Type 0 where
  text_message binary_message close_message ping_message pong_message : MessageType

-- Message, and what is written as one frame.
pub record Message : Type 0 where
  pub kind : MessageType
  pub bytes : List ℕ

-- A connection: what was written, and whether it is open.
pub record Socket : Type 0 where
  pub sent : List Message
  pub read_limit : Option ℤ
  pub is_open : Bool

pub data Heart : Type 0 where
  protocol_heart app_heart : Heart

-- `background` are the heartbeats that run until the stop channel is closed, if there is one; `gone` is
-- no field of the source: it has the connections that the client has given up.
pub record Client : Type 0 where
  pub cfg : Config
  pub conn : Option Socket
  pub background : Option (List Heart)
  pub gone : List Socket

pub data Error : Type 0 where
  not_connected : Error
  config_error : ConfigError → Error
  proxy_error : ProxyError → Error
  connect_failed : Text → Option Text → Error
  network : Text → Error
  joined : Error → Error → Error
  unsupported_message unsupported_mode codec_error : Error
  json_error : Text → Error

pub data Result {ℓ} (A : Type ℓ) : Type ℓ where
  ok : A → Result A
  err : Error → Result A

pub data Proxying : Type 0 where
  no_proxy env_proxy : Proxying
  by_url : Url → Proxying

pub data Dialling : Type 0 where
  directly : ℤ → Dialling
  over_socks5 : Text → Option (Text × Text) → ℤ → Dialling

pub record Dialer : Type 0 where
  pub handshake_timeout : ℤ
  pub read_buffer_size : ℤ
  pub write_buffer_size : ℤ
  pub subprotocols : List Text
  pub enable_compression : Bool
  pub tls_config : Option ℕ
  pub proxy : Proxying
  pub net_dial : Dialling

-- What other packages answer in one call: the handshake fails with an error and perhaps a status.
pub record Lib : Type 0 where
  pub canonical : Canonical
  pub urls : Urls
  pub dial : Dialer → Text → Headers → Option (Text × Option Text)
  pub write_error : Message → Option Text
  pub close_error : Option Text
  pub close_payload : ℤ → Text → List ℕ
  pub read : Message ⊎ Text
  pub encode : Any → List ℕ ⊎ Text
  pub sprint : Any → Text

abbrev env_or_none : Bool → Proxying
env_or_none true = env_proxy
env_or_none false = no_proxy

abbrev base_dialer : Config → Dialer
base_dialer cfg = record {
  handshake_timeout = cfg.open_timeout;
  read_buffer_size = cfg.read_buffer_size;
  write_buffer_size = cfg.write_buffer_size;
  subprotocols = cfg.subprotocols;
  enable_compression = cfg.enable_compression;
  tls_config = cfg.tls_config;
  proxy = env_or_none cfg.use_env_proxy;
  net_dial = directly cfg.open_timeout;
}

abbrev routed : Dialer → Route ⊎ ProxyError → Dialer ⊎ ProxyError
routed d (inr e) = inr e
routed d (inl (proxy_url u)) = inl (record d { proxy = by_url u })
routed d (inl (socks5_dial host auth timeout)) =
    inl (record d { net_dial = over_socks5 host auth timeout })

unfoldable pub build_dialer : Urls → Config → Dialer ⊎ ProxyError
unfolding proxy_from_config
build_dialer urls cfg = elim cfg.proxy as (λ p. Dialer ⊎ ProxyError) [
  | none ↦ inl (base_dialer cfg)
  | some p ↦ routed (base_dialer cfg) (proxy_from_config urls p cfg.open_timeout)
]

abbrev set_given : Canonical → Text → Text → Headers → Headers
set_given canonical key value headers =
    if is_empty value then headers else set_header canonical key value headers

-- The headers of the handshake.
unfoldable pub handshake_headers : Canonical → Config → Headers
unfolding set_header
handshake_headers canonical cfg =
    set_given canonical (codes "User-Agent") cfg.user_agent
      (set_given canonical (codes "Origin") cfg.origin (or_empty cfg.headers))

abbrev pub Done : Type 0
Done = Client × Result (Unit {0})

abbrev hearts : Bool → Heart → List Heart
hearts true h = h ∷ []
hearts false h = []

-- An earlier stop channel is overwritten.
unfoldable pub start_background : Client → Client
start_background c = record c {
  background = some (
      hearts c.cfg.heartbeat.enabled protocol_heart
      ++ hearts c.cfg.app_heartbeat.enabled app_heart);
}

-- The stop channel is closed, and the heartbeats, for which a caller waits, end.
unfoldable pub stop_background : Client → Client
stop_background c = record c { background = none }

abbrev pub new_socket : Config → Socket
new_socket cfg = record {
  sent = [];
  read_limit = if ltb_ℤ (pos 0) cfg.max_message_size then some cfg.max_message_size else none;
  is_open = true;
}

abbrev pub closed_socket : Socket → Socket
closed_socket s = record s { is_open = false }

-- A connection that came too late is closed.
abbrev pub store : Socket → Option Socket → Client → Done
store s none c = (start_background (record c { conn = some s }), ok tt)
store s (some held) c = (record c { gone = closed_socket s ∷ c.gone }, ok tt)

abbrev pub dialled : Option (Text × Option Text) → Client → Done
dialled (some (e, status)) c = (c, err (connect_failed e status))
dialled none c = store (new_socket c.cfg) c.conn c

abbrev pub dial_with : Lib → Dialer ⊎ ProxyError → Client → Done
dial_with lib (inr e) c = (c, err (proxy_error e))
dial_with lib (inl d) c = dialled (lib.dial d c.cfg.url (handshake_headers lib.canonical c.cfg)) c

abbrev pub connect_on : Lib → Option Socket → Client → Done
connect_on lib (some s) c = (c, ok tt)
connect_on lib none c = dial_with lib (build_dialer lib.urls c.cfg) c

-- Connect and ConnectContext
unfoldable pub connect_context : Lib → Client → Done
unfolding build_dialer handshake_headers start_background
connect_context lib c = connect_on lib c.conn c

abbrev pub as_error : Option Text → Option Error
as_error none = none
as_error (some e) = some (network e)

-- errors.Join
abbrev pub join_errors : Option Error → Option Error → Result (Unit {0})
join_errors none none = ok tt
join_errors none (some b) = err b
join_errors (some a) none = err a
join_errors (some a) (some b) = err (joined a b)

abbrev pub wrote : Option Text → Message → Socket → Socket
wrote none f s = record s { sent = s.sent ++ f ∷ [] }
wrote (some e) f s = s

-- The close frame, where there is time for one.
abbrev pub say_goodbye : Lib → Config → Message → Socket → Socket × Option Error
say_goodbye lib cfg f s =
    if ltb_ℤ (pos 0) cfg.close_timeout
    then (wrote (lib.write_error f) f s, as_error (lib.write_error f))
    else (s, none)

abbrev pub close_on : Lib → Message → Option Socket → Client → Done
close_on lib f none c = (c, ok tt)
close_on lib f (some s) c =
    let (t, close_err) = say_goodbye lib c.cfg f s in
    (
      record c { conn = none; gone = closed_socket t ∷ c.gone },
      join_errors close_err (as_error lib.close_error),
    )

unfoldable pub close_with_reason : Lib → ℤ → Text → Client → Done
unfolding stop_background
close_with_reason lib code reason c =
    let f : Message = record { kind = close_message; bytes = lib.close_payload code reason } in
    close_on lib f c.conn (stop_background c)

unfoldable pub close : Lib → Client → Done
unfolding close_with_reason
close lib c = close_with_reason lib (pos 1000) [] c

abbrev pub then_connect : Lib → Done → Done
then_connect lib (c, ok u) = connect_context lib c
then_connect lib (c, err e) = (c, err e)

unfoldable pub reconnect : Lib → Client → Done
unfolding close connect_context
reconnect lib c = then_connect lib (close lib c)

abbrev pub fresh : Config → Client
fresh cfg = record { cfg = cfg; conn = none; background = none; gone = [] }

abbrev made : Done → Result Client
made (c, ok u) = ok c
made (c, err e) = err e

abbrev accepted : Lib → Option ConfigError → Config → Result Client
accepted lib (some e) cfg = err (config_error e)
accepted lib none cfg =
    let connected = made (connect_context lib (fresh cfg)) in
    if cfg.auto_connect then connected else ok (fresh cfg)

unfoldable pub new_client_with_config : Lib → Config → Result Client
unfolding normalize check_config connect_context
new_client_with_config lib cfg =
    let given = normalize cfg in accepted lib (check_config given) given

-- A nil option is left out.
abbrev pub apply_options : List (Option (Config → Config)) → Config → Config
apply_options [] cfg = cfg
apply_options (none ∷ opts) cfg = apply_options opts cfg
apply_options (some opt ∷ opts) cfg = apply_options opts (opt cfg)

unfoldable pub new_client : Lib → Text → List (Option (Config → Config)) → Result Client
unfolding new_client_with_config
new_client lib url opts = new_client_with_config lib (apply_options opts (default_config url))

abbrev connected_client : Lib → Result Client → Result Client
connected_client lib (ok c) = made (connect_context lib c)
connected_client lib (err e) = err e

-- Dial and DialContext
unfoldable pub dial_client : Lib → Text → List (Option (Config → Config)) → Result Client
unfolding new_client connect_context
dial_client lib url opts = connected_client lib (new_client lib url opts)

abbrev is_held : Option Socket → Bool
is_held none = false
is_held (some s) = true

abbrev pub connected : Client → Bool
connected c = is_held c.conn
