-- ===== src/ProxyPool/Pool/Refresh.antt =====
-- proxypool/pool.go: Refresh.
use public_golibs.Common.{
  ℕ, ◌+◌, Option, none, some, List, [], ◌∷◌, Text, if◌then◌else◌, trim_space, is_empty,
}
use public_golibs.Common.Int.{ℤ}
use public_golibs.ProxyPool.Types.{
  Error, Fetched, fetched, failed, ProxyAddr, FetchFunc, api_url_empty, fetch_func_unset,
}
use public_golibs.ProxyPool.Pool.State.{
  ProxyPool, Callback, refreshed, add_proxy, set_last_refresh_error,
}

pub record Refreshed : Type 0 where
  pub pool : ProxyPool
  pub error : Option Error
  pub callbacks : List Callback

-- The loop over the fetched addresses, with the count of those added so far.
unfoldable pub add_all : ℤ → List ProxyAddr → ℕ → ProxyPool → ProxyPool × ℕ
add_all now [] count p = (p, count)
add_all now (a ∷ rest) count p =
    let added = add_proxy now a.ip a.port p in
    add_all now rest (if added.1 then count + 1 else count) added.0

-- The fetch function's answer, or the error for a missing one.
unfoldable pub fetch_addrs : ℤ → Text → Option FetchFunc → Fetched
fetch_addrs now url none = failed fetch_func_unset
fetch_addrs now url (some f) = f now url

unfoldable pub finish_refresh : ℤ → Fetched → ProxyPool → Refreshed
unfolding set_last_refresh_error
finish_refresh now (fetched addrs) p =
    let added = add_all now addrs 0 (set_last_refresh_error none p) in
    record {
      pool = added.0;
      error = none;
      callbacks = if p.on_refresh then refreshed added.1 none ∷ [] else [];
    }
finish_refresh now (failed e) p = record {
  pool = set_last_refresh_error (some e) p;
  error = some e;
  callbacks = if p.on_refresh then refreshed 0 (some e) ∷ [] else [];
}

-- `refreshing` says that another goroutine holds the refresh lock, so that TryLock fails. Here it is
-- free before the call or the call changes nothing, and it is free again at the end.
unfoldable pub refresh : ℤ → ProxyPool → Refreshed
unfolding finish_refresh fetch_addrs set_last_refresh_error
refresh now p =
    if is_empty (trim_space p.api_url)
    then record {
      pool = set_last_refresh_error (some api_url_empty) p;
      error = some api_url_empty;
      callbacks = [];
    }
    else if p.refreshing
    then record { pool = p; error = none; callbacks = [] }
    else finish_refresh now (fetch_addrs now p.api_url p.fetch_func) p
