-- ===== src/ProxyPool/Pool/RefreshLaws.antt =====
-- What a refresh does to the pool, on each of its branches.
use public_golibs.Common.{
  ℕ, ◌+◌, ◌≡◌, refl, Bool, true, false, none, some, List, [], ◌∷◌, ◌++◌, arith, Text, if◌then◌else◌,
  All, trim_space, is_empty, Bool-cases, inl, inr,
}
use public_golibs.Common.Int.{ℤ}
use public_golibs.ProxyPool.Types.{Error, Fetched, fetched, failed, ProxyAddr, FetchFunc}
use public_golibs.ProxyPool.Pool.State.{ProxyPool, contains_key, set_last_refresh_error, refreshed}
use public_golibs.ProxyPool.Pool.Refresh.{refresh, add_all, finish_refresh, fetch_addrs}
use public_golibs.ProxyPool.Pool.Queries.{size}
use public_golibs.ProxyPool.Pool.Keys.{
  IsValid, add_proxy_lem, add_proxy-IsValid, add_proxy-keeps, add_all_count,
}

abbrev pub has_addr : ProxyPool → ProxyAddr → Bool
has_addr p a = contains_key p.heap (a.ip ++ b':' ∷ a.port) p.proxies

add_all-keeps :
    (now : ℤ) (addrs : List ProxyAddr) (count : ℕ) (k : Text) (p : ProxyPool)
    → IsValid p
    → contains_key p.heap k p.proxies ≡ true
    → let q = (add_all now addrs count p).0 in contains_key q.heap k q.proxies ≡ true
unfolding add_all
add_all-keeps now [] count k p v e = e
add_all-keeps now (a ∷ rest) count k p v e =
    add_all-keeps now rest _ k _ (add_proxy-IsValid now a.ip a.port p v)
      (add_proxy-keeps now a.ip a.port k p v e)

add_all-has_addr :
    (now : ℤ) (addrs : List ProxyAddr) (count : ℕ) (p : ProxyPool)
    → IsValid p
    → All (λ a. has_addr (add_all now addrs count p).0 a ≡ true) addrs
unfolding add_all
add_all-has_addr now [] count p v = tt
add_all-has_addr now (a ∷ rest) count p v =
    let v' = add_proxy-IsValid now a.ip a.port p v in
    (
      add_all-keeps now rest _ _ _ v' (add_proxy_lem now a.ip a.port p v).1,
      add_all-has_addr now rest _ _ v',
    )

finish_fetched :
    (now : ℤ) (addrs : List ProxyAddr) (p : ProxyPool)
    → IsValid p
    → let r = finish_refresh now (fetched addrs) p in
      (r.error ≡ none)
      × All (λ a. has_addr r.pool a ≡ true) addrs
      × ((n : ℕ) × (size r.pool ≡ size p + n)
          × (r.callbacks ≡ (if p.on_refresh then refreshed n none ∷ [] else [])))
unfolding finish_refresh size set_last_refresh_error
finish_fetched now addrs p v =
    let q = record p { last_err = none } in
    let v' : IsValid q = record { distinct = v.distinct; below = v.below } in
    (
      refl,
      add_all-has_addr now addrs 0 q v',
      ((add_all now addrs 0 q).1, omega (arith, add_all_count now addrs 0 q), refl),
    )

refresh_finishes :
    (now : ℤ) (p : ProxyPool) (f : FetchFunc) (addrs : List ProxyAddr)
    → is_empty (trim_space p.api_url) ≡ false
    → p.refreshing ≡ false
    → p.fetch_func ≡ some f
    → f now p.api_url ≡ fetched addrs
    → refresh now p ≡ finish_refresh now (fetched addrs) p
unfolding refresh fetch_addrs
refresh_finishes now p f addrs named free given answer =
    let fetches : fetch_addrs now p.api_url p.fetch_func ≡ fetched addrs = simp given answer in
    rw (named, fetches) (ground arith)

-- A refresh of a valid pool, with an API address, with no other refresh under way and with a fetch
-- function that returns addresses: it reports no error, every address returned is in the pool, and the
-- callback, if one is set, is told the number of proxies by which the pool grew.
pub refresh_fetched :
    (now : ℤ) (p : ProxyPool) (f : FetchFunc) (addrs : List ProxyAddr)
    → IsValid p
    → is_empty (trim_space p.api_url) ≡ false
    → p.refreshing ≡ false
    → p.fetch_func ≡ some f
    → f now p.api_url ≡ fetched addrs
    → let r = refresh now p in
      (r.error ≡ none)
      × All (λ a. has_addr r.pool a ≡ true) addrs
      × ((n : ℕ) × (size r.pool ≡ size p + n)
          × (r.callbacks ≡ (if p.on_refresh then refreshed n none ∷ [] else [])))
refresh_fetched now p f addrs v named free given answer =
    rw (refresh_finishes now p f addrs named free given answer) (finish_fetched now addrs p v)

finish_error :
    (now : ℤ) (p : ProxyPool) (e : Error) (f : Fetched)
    → (finish_refresh now f p).error ≡ some e
    → (finish_refresh now f p).pool ≡ record p { last_err = some e }
unfolding finish_refresh set_last_refresh_error
finish_error now p e (fetched addrs) h = cc
finish_error now p e (failed e') h = ground arith

-- A refresh that fails, for want of an address, of a fetch function or of an answer, returns an error,
-- keeps it as the last one, and changes nothing else.
pub refresh_error :
    (now : ℤ) (p : ProxyPool) (e : Error)
    → (refresh now p).error ≡ some e
    → (refresh now p).pool ≡ record p { last_err = some e }
unfolding refresh
refresh_error now p e h = elim (Bool-cases (is_empty (trim_space p.api_url))) [
  | inl blank ↦ unfold set_last_refresh_error in ground arith
  | inr named ↦ ground (arith, finish_error now p e (fetch_addrs now p.api_url p.fetch_func))
]
