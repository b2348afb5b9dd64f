-- ===== src/ProxyPool/Manager/Loop.antt =====
-- proxypool/proxy.go: GetProxy with its retry loop.
use public_golibs.Common.{Bool, true, false, Option, none, some, List, [], ◌∷◌, Text}
use public_golibs.Common.Int.{ℤ}
use public_golibs.ProxyPool.Types.{
  Error, Result, ok, err, panic, FetchFunc, get_proxy_stopped, invalid_get_proxy_mode,
}
use public_golibs.ProxyPool.Types
use public_golibs.ProxyPool.Manager.{
  Proxy, ProxyMode, none_mode, virtual_mode, pool_mode, auth_mode, other_mode, GetProxyMode, once,
  must_success, other_get, ProxyResult, Rolls, get_pool_proxy, get_no_proxy, get_virtual_proxy,
  get_auth_proxy, set_get_proxy_stop,
}

-- What one round of the loop finds: the stop flag, which another goroutine may have set or reset, and the
-- times of the two parts of the pool's Get.
pub record Round : Type 0 where
  pub stop : Bool
  pub before : ℤ
  pub now : ℤ

abbrev pub stopped : Option Error → Error
stopped none = get_proxy_stopped
stopped (some e) = Types.join get_proxy_stopped e

-- After an attempt the loop returns the proxy, or goes on with the error as the last one.
abbrev pub after_attempt :
    (Error → Proxy → Proxy × Option (Result ProxyResult))
    → Proxy × Result ProxyResult
    → Proxy × Option (Result ProxyResult)
after_attempt go (q, ok a) = (q, some (ok a))
after_attempt go (q, err e) = go e q
after_attempt go (q, panic) = (q, some panic)

-- The loop over the rounds that there is time for; `none` while it still runs.
unfoldable pub retry :
    FetchFunc → Text → Option Error → List Round → Proxy → Proxy × Option (Result ProxyResult)
retry fetch kind last [] p = (p, none)
retry fetch kind last (r ∷ rounds) p =
    let q = set_get_proxy_stop r.stop p in
    elim r.stop [
      | true ↦ (q, some (err (stopped last)))
      | false ↦
          after_attempt (λ e q'. retry fetch kind (some e) rounds q')
            (get_pool_proxy fetch r.before r.now kind q)
    ]

-- The mode of the optional argument; `Once` if there is none.
abbrev first_mode : List GetProxyMode → GetProxyMode
first_mode [] = once
first_mode (m ∷ rest) = m

abbrev answered : Proxy × Result ProxyResult → Proxy × Option (Result ProxyResult)
answered (p, r) = (p, some r)

unfoldable pub from_pool :
    FetchFunc
    → List Round
    → Round
    → GetProxyMode
    → Text
    → Proxy
    → Proxy × Option (Result ProxyResult)
unfolding retry
from_pool fetch rounds r once kind p = answered (get_pool_proxy fetch r.before r.now kind p)
from_pool fetch rounds r must_success kind p = retry fetch kind none (r ∷ rounds) p
from_pool fetch rounds r (other_get n) kind p = (p, some (err invalid_get_proxy_mode))

-- A mode that is none of the four is handled as the pool's.
unfoldable pub dispatch :
    FetchFunc
    → Rolls
    → List Round
    → Round
    → ProxyMode
    → GetProxyMode
    → Text
    → Proxy
    → Proxy × Option (Result ProxyResult)
unfolding from_pool
dispatch fetch rolls rounds r none_mode g kind p = (p, some get_no_proxy)
dispatch fetch rolls rounds r virtual_mode g kind p = (p, some (get_virtual_proxy rolls))
dispatch fetch rolls rounds r auth_mode g kind p = (p, some (get_auth_proxy kind p))
dispatch fetch rolls rounds r pool_mode g kind p = from_pool fetch rounds r g kind p
dispatch fetch rolls rounds r (other_mode m) g kind p = from_pool fetch rounds r g kind p

unfoldable pub get_proxy :
    FetchFunc
    → Rolls
    → List Round
    → Round
    → List GetProxyMode
    → Proxy
    → Proxy × Option (Result ProxyResult)
unfolding dispatch
get_proxy fetch rolls rounds r modes p =
    dispatch fetch rolls rounds r p.mode (first_mode modes) p.proxy_type p
