-- ===== src/Websocket/Normalize.antt =====
-- websocket/config.go: normalize; websocket/client.go: the tests of a new client.
use public_golibs.Common.{
  ◌≡◌, refl, Bool, true, false, ◌&&◌, Option, none, some, codes, if◌then◌else◌, ◌==◌, is_empty,
  trim_space, ◌⊎◌, inl, inr, arith,
}
use public_golibs.Common.Int.{ℤ, pos, negsuc, leb_ℤ, ◌≤ℤ◌, ◌<ℤ◌}
use public_golibs.Common.Words.{to_lower}
use public_golibs.Websocket.Config.{
  Any, nil, string, byte_slice, composite, simple, Config, HeartbeatConfig,
  ApplicationHeartbeatConfig, or_empty, default_open_timeout, default_close_timeout,
  default_write_timeout, default_heartbeat_interval, default_heartbeat_timeout,
  default_app_heartbeat_interval,
}

-- 0 stands for the default, and a negative number for none.
abbrev pub timeout_or : ℤ → ℤ → ℤ
timeout_or d (pos n) = if n == 0 then d else pos n
timeout_or d (negsuc n) = pos 0

abbrev pub or_default : ℤ → ℤ → ℤ
or_default d (pos n) = if n == 0 then d else pos n
or_default d (negsuc n) = negsuc n

abbrev pub at_least_zero : ℤ → ℤ
at_least_zero (pos n) = pos n
at_least_zero (negsuc n) = pos 0

abbrev pub normal_heartbeat : HeartbeatConfig → HeartbeatConfig
normal_heartbeat h =
    if h.enabled
    then record h {
      interval = or_default default_heartbeat_interval h.interval;
      timeout = or_default default_heartbeat_timeout h.timeout;
    }
    else h

abbrev pub or_ping : Any → Any
or_ping nil = string (codes "ping")
or_ping (string t) = string t
or_ping (byte_slice b) = byte_slice b
or_ping (composite t) = composite t
or_ping (simple t) = simple t

abbrev pub normal_app_heartbeat : ApplicationHeartbeatConfig → ApplicationHeartbeatConfig
normal_app_heartbeat h =
    if h.enabled
    then record h {
      interval = or_default default_app_heartbeat_interval h.interval;
      message = or_ping h.message;
      mode = to_lower (trim_space h.mode);
    }
    else h

unfoldable pub normalize : Config → Config
unfolding trim_space
normalize cfg = record cfg {
  headers = some (or_empty cfg.headers);
  open_timeout = timeout_or default_open_timeout cfg.open_timeout;
  close_timeout = timeout_or default_close_timeout cfg.close_timeout;
  write_timeout = timeout_or default_write_timeout cfg.write_timeout;
  max_message_size = at_least_zero cfg.max_message_size;
  heartbeat = normal_heartbeat cfg.heartbeat;
  app_heartbeat = normal_app_heartbeat cfg.app_heartbeat;
}

pub data ConfigError : Type 0 where
  empty_url app_heartbeat_interval heartbeat_interval : ConfigError

-- What NewClientWithConfig refuses.
unfoldable pub check_config : Config → Option ConfigError
check_config cfg =
    if is_empty cfg.url
    then some empty_url
    else if cfg.app_heartbeat.enabled && leb_ℤ cfg.app_heartbeat.interval (pos 0)
    then some app_heartbeat_interval
    else if cfg.heartbeat.enabled && leb_ℤ cfg.heartbeat.interval (pos 0)
    then some heartbeat_interval
    else none

-- What a client relies on of its configuration; the other timeouts and sizes are used as they are.
pub record IsUsable (cfg : Config) : Type 0 where
  pub url_given : is_empty cfg.url ≡ false
  pub open_time : pos 0 ≤ℤ cfg.open_timeout
  pub close_time : pos 0 ≤ℤ cfg.close_timeout
  pub write_time : pos 0 ≤ℤ cfg.write_timeout
  pub size : pos 0 ≤ℤ cfg.max_message_size
  pub beats : (cfg.heartbeat.enabled ≡ false) ⊎ (pos 0 <ℤ cfg.heartbeat.interval)
  pub app_beats : (cfg.app_heartbeat.enabled ≡ false) ⊎ (pos 0 <ℤ cfg.app_heartbeat.interval)

timeout_or-ge : (d n : ℤ) → pos 0 ≤ℤ d → pos 0 ≤ℤ timeout_or d n
timeout_or-ge d (pos n) h = ground (arith, h)
timeout_or-ge d (negsuc n) h = omega arith

at_least_zero-ge : (n : ℤ) → pos 0 ≤ℤ at_least_zero n
at_least_zero-ge (pos n) = omega arith
at_least_zero-ge (negsuc n) = omega arith

all_passed :
    (a b c : Bool)
    → ◌≡◌ {A = Option ConfigError}
        (if a
          then some empty_url
          else if b
          then some app_heartbeat_interval
          else if c
          then some heartbeat_interval
          else none)
        none
    → (a ≡ false) × (b ≡ false) × (c ≡ false)
all_passed true b c h = cc
all_passed false true c h = cc
all_passed false false true h = cc
all_passed false false false h = (refl, refl, refl)

off_or_positive :
    (enabled : Bool) (n : ℤ)
    → (enabled && leb_ℤ n (pos 0)) ≡ false
    → (enabled ≡ false) ⊎ (pos 0 <ℤ n)
off_or_positive false n h = inl refl
off_or_positive true (pos n) h = inr (ground (arith, h))
off_or_positive true (negsuc n) h = inr (ground (arith, h))

-- A configuration that a new client accepts after normalising it is usable: the URL is given, the timeouts
-- for opening, closing and writing and the largest message size are not negative, and each heartbeat is
-- off or has a positive interval.
pub normalize-IsUsable :
    (cfg : Config) → check_config (normalize cfg) ≡ none → IsUsable (normalize cfg)
unfolding normalize check_config
normalize-IsUsable cfg h =
    let app = normal_app_heartbeat cfg.app_heartbeat in
    let beat = normal_heartbeat cfg.heartbeat in
    let (url, app_ok, beat_ok) =
      all_passed (is_empty cfg.url) (app.enabled && leb_ℤ app.interval (pos 0))
        (beat.enabled && leb_ℤ beat.interval (pos 0)) h in
    record {
      url_given = url;
      open_time = timeout_or-ge default_open_timeout cfg.open_timeout (omega arith);
      close_time = timeout_or-ge default_close_timeout cfg.close_timeout (omega arith);
      write_time = timeout_or-ge default_write_timeout cfg.write_timeout (omega arith);
      size = at_least_zero-ge cfg.max_message_size;
      beats = off_or_positive beat.enabled beat.interval beat_ok;
      app_beats = off_or_positive app.enabled app.interval app_ok;
    }
