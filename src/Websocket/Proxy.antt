-- ===== src/Websocket/Proxy.antt =====
-- websocket/proxy.go: the proxy of a connection. The parsers of package net/url and net.SplitHostPort are
-- arguments.
use public_golibs.Common.{
  Option, none, some, [], ◌++◌, Text, codes, if◌then◌else◌, is_empty, text_eq, trim_space, ◌⊎◌, inl,
  inr,
}
use public_golibs.Common.Int.{ℤ}
use public_golibs.Common.Words.{to_lower, contains}
use public_golibs.Websocket.Config.{ProxyConfig}

pub data ProxyKind : Type 0 where
  http https socks5 socks5h : ProxyKind

-- A user, with the password if there is one.
pub record Url : Type 0 where
  pub scheme : Text
  pub host : Text
  pub userinfo : Option (Text × Option Text)

pub record Urls : Type 0 where
  pub parse : Text → Url ⊎ Text
  pub split_host_port : Text → Option Text

pub data ProxyError : Type 0 where
  empty_address no_host : ProxyError
  invalid_url bad_host_port unsupported_proxy : Text → ProxyError

unfoldable pub normalize_proxy_type : Text → Option ProxyKind
unfolding text_eq trim_space
normalize_proxy_type kind =
    let name = to_lower (trim_space kind) in
    if text_eq name (codes "http")
    then some http
    else if text_eq name (codes "https")
    then some https
    else if text_eq name (codes "socks5")
    then some socks5
    else if text_eq name (codes "socks5h")
    then some socks5h
    else none

abbrev pub type_name : Option ProxyKind → Text
type_name none = codes "http"
type_name (some http) = codes "http"
type_name (some https) = codes "https"
type_name (some socks5) = codes "socks5"
type_name (some socks5h) = codes "socks5h"

abbrev pub with_scheme : Text → Text → Text
with_scheme scheme address =
    if contains address (codes "://") then address else scheme ++ (codes "://" ++ address)

abbrev pub with_user : ProxyConfig → Url → Url
with_user p u =
    let password = if is_empty p.password then none else some p.password in
    elim u.userinfo [
      | none ↦
          if is_empty p.username then u else record u { userinfo = some (p.username, password) }
      | some given ↦ u
    ]

abbrev checked_port : Option Text → ProxyKind → Url → (Url × ProxyKind) ⊎ ProxyError
checked_port none kind u = inl (u, kind)
checked_port (some e) kind u = inr (bad_host_port e)

abbrev checked_kind : Urls → ProxyConfig → Option ProxyKind → Url → (Url × ProxyKind) ⊎ ProxyError
checked_kind lib p none u = inr (unsupported_proxy u.scheme)
checked_kind lib p (some kind) u = checked_port (lib.split_host_port u.host) kind (with_user p u)

abbrev checked_url : Urls → ProxyConfig → Url ⊎ Text → (Url × ProxyKind) ⊎ ProxyError
checked_url lib p (inr e) = inr (invalid_url e)
checked_url lib p (inl u) =
    if is_empty u.host then inr no_host else checked_kind lib p (normalize_proxy_type u.scheme) u

unfoldable pub normalize_proxy_config : Urls → ProxyConfig → (Url × ProxyKind) ⊎ ProxyError
unfolding normalize_proxy_type contains
normalize_proxy_config lib p =
    let address = trim_space p.address in
    if is_empty address
    then inr empty_address
    else checked_url lib p
        (lib.parse (with_scheme (type_name (normalize_proxy_type p.kind)) address))

-- How a connection goes: through an HTTP proxy, or over one of SOCKS5.
pub data Route : Type 0 where
  proxy_url : Url → Route
  socks5_dial : Text → Option (Text × Text) → ℤ → Route

abbrev or_no_password : Option Text → Text
or_no_password none = []
or_no_password (some password) = password

abbrev auth_of : Option (Text × Option Text) → Option (Text × Text)
auth_of none = none
auth_of (some (name, password)) = some (name, or_no_password password)

unfoldable pub socks5_dial_context : Url → ℤ → Route
socks5_dial_context u timeout = socks5_dial u.host (auth_of u.userinfo) timeout

abbrev route_of : ℤ → (Url × ProxyKind) ⊎ ProxyError → Route ⊎ ProxyError
route_of timeout (inr e) = inr e
route_of timeout (inl (u, http)) = inl (proxy_url u)
route_of timeout (inl (u, https)) = inl (proxy_url u)
route_of timeout (inl (u, socks5)) = inl (socks5_dial_context u timeout)
route_of timeout (inl (u, socks5h)) = inl (socks5_dial_context u timeout)

unfoldable pub proxy_from_config : Urls → ProxyConfig → ℤ → Route ⊎ ProxyError
unfolding normalize_proxy_config socks5_dial_context
proxy_from_config lib p timeout = route_of timeout (normalize_proxy_config lib p)
