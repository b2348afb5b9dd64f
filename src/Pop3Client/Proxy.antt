-- ===== src/Pop3Client/Proxy.antt =====
-- pop3client/proxy.go: dialling, directly or through a proxy. The dialler, the SOCKS5 library, the parser
-- of an HTTP response and base64 are arguments; deadlines only bound how long a call may take.
use public_golibs.Common.{
  ℕ, ◌≡◌, ◌≤◌, ◌<◌, refl, ap, sym, Bool, false, ◌&&◌, ◌||◌, not, Option, none, some, [], ◌∷◌, ◌++◌,
  Text, codes, if◌then◌else◌, ltb, leb, is_empty, text_eq, trim_space, ◌⊎◌, inl, inr, arith,
  Bool-cases, Option-cases,
}
use public_golibs.Common.Int.{ℤ, pos, ltb_ℤ}
use public_golibs.Common.Words.{format_int, to_lower}
use public_golibs.Pop3Client.Wire.{Error, network, plain, Result, ok, err, Conn, ProxyConfig}
use public_golibs.Pop3Client.Login.{join_host_port}

pub record Status : Type 0 where
  pub code : ℕ
  pub line : Text
  pub rest : Text

-- What the other side of a new connection is going to send, or why there is none.
pub record Dialer : Type 0 where
  pub direct : Text → Text → ℤ → Text ⊎ Text
  pub socks5 : Text → Text → Option (Text × Text) → Text → ℤ → Text ⊎ Text
  pub write_error : Text → Option Text
  pub read_response : Text → Status ⊎ Text
  pub base64 : Text → Text

unfoldable pub enabled : ProxyConfig → Bool
enabled p = not (is_empty (trim_space p.host)) && ltb_ℤ (pos 0) p.port

unfoldable pub address : ProxyConfig → Text
unfolding join_host_port format_int
address p = join_host_port p.host (format_int p.port)

unfoldable pub normalized : ProxyConfig → ProxyConfig
unfolding trim_space
normalized p =
    let kind = to_lower (trim_space p.kind) in
    record p { kind = if is_empty kind then codes "socks5" else kind }

abbrev fresh : Text → Conn
fresh incoming = record { sent = []; incoming = incoming; is_tls = false }

abbrev proxy_failure : Text → Error
proxy_failure e = network (codes "邮箱代理异常: " ++ e)

abbrev dialled_directly : Text ⊎ Text → Result Conn
dialled_directly (inl incoming) = ok (fresh incoming)
dialled_directly (inr e) = err (network e)

abbrev through_socks5 : Text ⊎ Text → Result Conn
through_socks5 (inl incoming) = ok (fresh incoming)
through_socks5 (inr e) = err (proxy_failure e)

abbrev has_login : ProxyConfig → Bool
has_login p = not (is_empty p.username) || not (is_empty p.password)

unfoldable pub dial_socks5_proxy : Dialer → Text → Text → ℤ → ProxyConfig → Result Conn
unfolding address
dial_socks5_proxy d net target timeout p = through_socks5 (
    d.socks5 net (address p) (if has_login p then some (p.username, p.password) else none) target
      timeout)

abbrev authorization : Dialer → ProxyConfig → Text
authorization d p =
    if has_login p
    then codes "Proxy-Authorization: Basic "
      ++ (d.base64 (p.username ++ b':' ∷ p.password) ++ 13 ∷ 10 ∷ [])
    else []

-- What is written to the proxy.
unfoldable pub connect_request : Dialer → Text → ProxyConfig → Text
connect_request d target p =
    codes "CONNECT "
    ++ (target
        ++ (codes " HTTP/1.1"
            ++ 13
              ∷ 10
              ∷ (codes "Host: " ++ (target ++ 13 ∷ 10 ∷ (authorization d p ++ 13 ∷ 10 ∷ [])))))

abbrev pub accepted : Text → Status ⊎ Text → Result Conn
accepted request (inr e) = err (proxy_failure e)
accepted request (inl s) =
    if ltb s.code 200 || leb 300 s.code
    then err (proxy_failure (codes "http proxy connect failed: " ++ s.line))
    else ok (record { sent = request; incoming = s.rest; is_tls = false })

abbrev pub requested : Dialer → Text → Option Text → Text → Result Conn
requested d request (some e) incoming = err (proxy_failure e)
requested d request none incoming = accepted request (d.read_response incoming)

abbrev pub over_proxy : Dialer → Text → Text ⊎ Text → Result Conn
over_proxy d request (inr e) = err (proxy_failure e)
over_proxy d request (inl incoming) = requested d request (d.write_error request) incoming

unfoldable pub dial_http_proxy : Dialer → Text → Text → ℤ → ProxyConfig → Result Conn
unfolding address connect_request
dial_http_proxy d net target timeout p =
    if not (text_eq net (codes "tcp"))
    then err (plain (codes "http proxy only supports tcp network, got " ++ net))
    else over_proxy d (connect_request d target p) (d.direct net (address p) timeout)

abbrev by_kind : Dialer → Text → Text → ℤ → ProxyConfig → Result Conn
by_kind d net target timeout p =
    if text_eq p.kind (codes "socks5")
    then dial_socks5_proxy d net target timeout p
    else if text_eq p.kind (codes "http")
    then dial_http_proxy d net target timeout p
    else err (plain (codes "不支持的代理类型: " ++ (p.kind ++ codes ", 支持的类型: socks5, http")))

unfoldable pub dial_with_proxy : Dialer → Text → Text → ℤ → ProxyConfig → Result Conn
unfolding enabled normalized dial_socks5_proxy dial_http_proxy
dial_with_proxy d net target timeout p =
    if not (enabled p)
    then dialled_directly (d.direct net target timeout)
    else by_kind d net target timeout (normalized p)

-- The proxy has accepted the request, which was sent whole, and nothing else.
abbrev pub Tunnels : Dialer → Text → Text ⊎ Text → Conn → Type 0
Tunnels d request (inr e) s = ⊥
Tunnels d request (inl incoming) s =
    (s.sent ≡ request)
    × (d.write_error request ≡ none)
    × (status : Status) × (d.read_response incoming ≡ inl status)
    × (200 ≤ status.code)
    × (status.code < 300)
    × (s.incoming ≡ status.rest)

accepted-ok :
    (request : Text) (a : Status ⊎ Text) (s : Conn)
    → accepted request a ≡ ok s
    → (s.sent ≡ request)
      × (status : Status) × (a ≡ inl status)
      × (200 ≤ status.code)
      × (status.code < 300)
      × (s.incoming ≡ status.rest)
accepted-ok request (inr e) s h = cc
accepted-ok request (inl status) s h =
    elim (Bool-cases (ltb status.code 200 || leb 300 status.code)) [
      | inl refused ↦ let failed = rw refused at h in cc
      | inr taken ↦
          let made : Conn = record { sent = request; incoming = status.rest; is_tls = false } in
          let done : ◌≡◌ {A = Result Conn} (ok made) (ok s) = rw taken at h in
          let same : made ≡ s = cc in
          (
            ap (λ c. c.sent) (sym same),
            status,
            refl,
            ground (arith, taken),
            ground (arith, taken),
            ap (λ c. c.incoming) (sym same),
          )
    ]

over_proxy-Tunnels :
    (d : Dialer) (request : Text) (r : Text ⊎ Text) (s : Conn)
    → over_proxy d request r ≡ ok s
    → Tunnels d request r s
over_proxy-Tunnels d request (inr e) s h = cc
over_proxy-Tunnels d request (inl incoming) s h = elim (Option-cases (d.write_error request)) [
  | inl written ↦
      let done : accepted request (d.read_response incoming) ≡ ok s = rw written at h in
      let (sent, status, read, low, high, rest) =
        accepted-ok request (d.read_response incoming) s done in
      (sent, written, status, read, low, high, rest)
  | inr (e, broken) ↦ let failed = rw broken at h in cc
]

-- A connection through an HTTP proxy is returned only when the whole CONNECT request for the target, and
-- nothing else, was written to the proxy, and the proxy answered with a code from 200 to 299; what is
-- read from it is what comes after that answer.
pub dial_http_proxy-Tunnels :
    (d : Dialer) (net target : Text) (timeout : ℤ) (p : ProxyConfig) (s : Conn)
    → dial_http_proxy d net target timeout p ≡ ok s
    → Tunnels d (connect_request d target p) (d.direct net (address p) timeout) s
unfolding dial_http_proxy
dial_http_proxy-Tunnels d net target timeout p s h = elim (Bool-cases (text_eq net (codes "tcp"))) [
  | inl tcp ↦
      let done = rw tcp at h in
      over_proxy-Tunnels d (connect_request d target p) (d.direct net (address p) timeout) s done
  | inr other ↦ let failed = rw other at h in cc
]
