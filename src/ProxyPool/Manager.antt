-- ===== src/ProxyPool/Manager.antt =====
-- proxypool/proxy.go: the state of the manager, which gives out proxies in one of four modes.
-- The fetch function that it hands to its pool, and the numbers of math/rand, are arguments.
pub mod Auth
pub mod Loop
pub mod Laws
use public_golibs.Common.{
  ℕ, ◌+◌, ◌-◌, ◌≡◌, refl, Bool, true, false, Option, none, some, List, [], ◌∷◌, ◌++◌, arith, Text,
  codes, if◌then◌else◌, is_empty, trim_space, ◌||◌, ◌&&◌, not,
}
use public_golibs.Common.Int.{ℤ, pos}
use public_golibs.ProxyPool.Types.{
  Error, Result, ok, err, panic, FetchFunc, join, auth_unset, invalid_get_proxy_mode,
}
use public_golibs.ProxyPool.Item.{to_text}
use public_golibs.ProxyPool.Pool.State.{ProxyPool, Setting, set_option, new, last_refresh_error}
use public_golibs.ProxyPool.Pool.State
use public_golibs.ProxyPool.Pool.Get.{Got, get}
use public_golibs.ProxyPool.Pool.Queries.{Stats, get_stats}
use public_golibs.Common.Decimal.{format}

-- The four modes; a ProxyMode is a string, and `other` stands for any further one.
pub data ProxyMode : Type 0 where
  none_mode virtual_mode pool_mode auth_mode : ProxyMode
  other_mode : Text → ProxyMode

-- A GetProxyMode is an int.
pub data GetProxyMode : Type 0 where
  once must_success : GetProxyMode
  other_get : ℤ → GetProxyMode

pub record ProxyResult : Type 0 where
  pub kind : Text
  pub proxy : Text
  pub headers : List (Text × Text)
  pub ip : Text

pub record Proxy : Type 0 where
  pub mode : ProxyMode
  pub proxy_type : Text
  pub get_stop : Bool
  pub pool : Option ProxyPool
  pub pool_api_url : Text
  pub pool_max_use_count : ℤ
  pub pool_expire_seconds : ℤ
  pub pool_min_size : ℤ
  pub auth_host : Text
  pub auth_port : Text
  pub auth_username : Text
  pub auth_password : Text

unfoldable pub new_proxy : Proxy
new_proxy = record {
  mode = none_mode;
  proxy_type = codes "http";
  get_stop = false;
  pool = none;
  pool_api_url = [];
  pool_max_use_count = pos 5;
  pool_expire_seconds = pos 180;
  pool_min_size = pos 3;
  auth_host = [];
  auth_port = [];
  auth_username = [];
  auth_password = [];
}

unfoldable pub set_mode : ProxyMode → Proxy → Proxy
set_mode m p = record p { mode = m }

unfoldable pub set_type : Text → Proxy → Proxy
set_type t p = record p { proxy_type = t }

abbrev set_inner : Setting → Option ProxyPool → Option ProxyPool
set_inner s none = none
set_inner s (some q) = some (set_option s q)

unfoldable pub set_pool_api : Text → Proxy → Proxy
set_pool_api u p = record p { pool_api_url = u; pool = set_inner (Setting.api_url u) p.pool }

unfoldable pub set_pool_max_use_count : ℤ → Proxy → Proxy
set_pool_max_use_count n p = record p {
  pool_max_use_count = n;
  pool = set_inner (Setting.max_use_count n) p.pool;
}

unfoldable pub set_pool_expire_seconds : ℤ → Proxy → Proxy
set_pool_expire_seconds n p = record p {
  pool_expire_seconds = n;
  pool = set_inner (Setting.expire_seconds n) p.pool;
}

unfoldable pub set_pool_min_size : ℤ → Proxy → Proxy
set_pool_min_size n p = record p {
  pool_min_size = n;
  pool = set_inner (Setting.min_pool_size n) p.pool;
}

abbrev pub or_new : FetchFunc → Proxy → Option ProxyPool → ProxyPool
or_new fetch p (some q) = q
or_new fetch p none = new (record {
  api_url = p.pool_api_url;
  max_use_count = p.pool_max_use_count;
  expire_seconds = p.pool_expire_seconds;
  min_pool_size = p.pool_min_size;
  fetch_func = some fetch;
  on_proxy_get = false;
  on_refresh = false;
})

-- `GetPool` is `initPool` with the pool as its result.
unfoldable pub init_pool : FetchFunc → Proxy → Proxy
init_pool fetch p = record p { pool = some (or_new fetch p p.pool) }

unfoldable pub get_pool : FetchFunc → Proxy → Proxy × ProxyPool
unfolding init_pool
get_pool fetch p = (init_pool fetch p, or_new fetch p p.pool)

unfoldable pub set_get_proxy_stop : Bool → Proxy → Proxy
set_get_proxy_stop b p = record p { get_stop = b }

unfoldable pub stop_get_proxy : Proxy → Proxy
unfolding set_get_proxy_stop
stop_get_proxy p = set_get_proxy_stop true p

unfoldable pub resume_get_proxy : Proxy → Proxy
unfolding set_get_proxy_stop
resume_get_proxy p = set_get_proxy_stop false p

abbrev with_last : Error → Option Error → Error
with_last e none = e
with_last e (some l) = join e l

-- The result for what the pool handed out.
abbrev pool_result : Text → ProxyPool → Result ℕ → Result ProxyResult
pool_result kind q (ok r) =
    let t = to_text (q.heap r) in ok (record { kind = kind; proxy = t; headers = []; ip = t })
pool_result kind q (err e) = err (with_last e (last_refresh_error q))
pool_result kind q panic = panic

unfoldable pub get_pool_proxy : FetchFunc → ℤ → ℤ → Text → Proxy → Proxy × Result ProxyResult
unfolding last_refresh_error
get_pool_proxy fetch before now kind p =
    let got = get before now (or_new fetch p p.pool) in
    (record p { pool = some got.pool }, pool_result kind got.pool got.result)

unfoldable pub get_no_proxy : Result ProxyResult
get_no_proxy = ok (record { kind = []; proxy = []; headers = []; ip = codes "直连" })

-- rand.Intn(n), the four times that it is called: a number below n.
pub record Rolls : Type 0 where
  pub a : ℕ
  pub b : ℕ
  pub c : ℕ
  pub d : ℕ

unfoldable pub virtual_ip : Rolls → Text
virtual_ip r =
    format (r.a + 1) ++ b'.' ∷ (format r.b ++ b'.' ∷ (format r.c ++ b'.' ∷ format (r.d + 1)))

unfoldable pub get_virtual_proxy : Rolls → Result ProxyResult
unfolding virtual_ip
get_virtual_proxy r =
    let ip = virtual_ip r in
    ok (record {
      kind = [];
      proxy = [];
      headers =
          (codes "X-Forwarded-For", ip)
          ∷ (codes "X-Real-IP", ip)
          ∷ (codes "X-Client-IP", ip)
          ∷ (codes "X-Originating-IP", ip)
          ∷ (codes "CF-Connecting-IP", ip)
          ∷ (codes "True-Client-IP", ip)
          ∷ (codes "X-Remote-IP", ip)
          ∷ (codes "X-Remote-Addr", ip)
          ∷ (codes "X-Cluster-Client-IP", ip)
          ∷ [];
      ip = ip ++ codes " (虚拟)";
    })

unfoldable pub get_auth_proxy : Text → Proxy → Result ProxyResult
get_auth_proxy kind p =
    let short = p.auth_host ++ b':' ∷ p.auth_port in
    if is_empty p.auth_host || is_empty p.auth_port
    then err auth_unset
    else ok (record {
      kind = kind;
      proxy =
          if not (is_empty p.auth_username) && not (is_empty p.auth_password)
          then p.auth_host
            ++ b':' ∷ (p.auth_port ++ b':' ∷ (p.auth_username ++ b':' ∷ p.auth_password))
          else short;
      headers = [];
      ip = short;
    })

unfoldable pub get_pool_stats : FetchFunc → ℤ → Proxy → Proxy × Stats
unfolding init_pool
get_pool_stats fetch now p = (init_pool fetch p, get_stats now (or_new fetch p p.pool))
