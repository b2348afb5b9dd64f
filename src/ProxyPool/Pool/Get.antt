-- ===== src/ProxyPool/Pool/Get.antt =====
-- proxypool/pool.go: Get, GetString, GetURL and the cleanup before it.
use public_golibs.Common.{
  ℕ, ◌+◌, ◌-◌, ◌%◌, Bool, false, Option, none, some, List, [], ◌∷◌, ◌++◌, Text, if◌then◌else◌,
  length, filter_by, get_elem?, ltb, ◌==◌,
}
use public_golibs.Common.Int.{ℤ, pos, ltb_ℤ, two63, two64}
use public_golibs.ProxyPool.Types.{Result, ok, err, panic, no_available_proxy}
use public_golibs.ProxyPool.Item.{ProxyItem, to_text, url, is_available, increment_use_count}
use public_golibs.ProxyPool.Pool.State.{ProxyPool, Callback, proxy_get, update}
use public_golibs.ProxyPool.Pool.Refresh.{refresh}

abbrev pub usable : ℤ → ProxyPool → ℕ → Bool
usable now p r = is_available now (p.heap r)

unfoldable pub cleanup_unsafe : ℤ → ProxyPool → ProxyPool
cleanup_unsafe now p = record p { proxies = filter_by (usable now p) p.proxies }

pub record Got : Type 0 where
  pub pool : ProxyPool
  pub result : Result ℕ
  -- Whether a refresh was started in the background.
  pub spawned : Bool
  pub callbacks : List Callback

-- idx % n of an int, from its bit pattern: a negative remainder is no index.
unfoldable pub pick_index : ℕ → ℕ → Option ℕ
pick_index bits n =
    if ltb bits two63 then some (bits % n) else if (two64 - bits) % n == 0 then some 0 else none

unfoldable pub hand_out : ℤ → ℕ → Option ProxyItem → ProxyPool → Got
hand_out now r (some item) p = record {
  pool = record p { heap = update p.heap r item };
  result = ok r;
  spawned = false;
  callbacks = if p.on_proxy_get then proxy_get r ∷ [] else [];
}
hand_out now r none p = record {
  pool = p;
  result = err no_available_proxy;
  spawned = false;
  callbacks = [];
}

-- The reference at the chosen index; an index out of range panics.
unfoldable pub take_at : ℤ → Option ℕ → List ℕ → ProxyPool → Got
unfolding hand_out
take_at now none available p = record { pool = p; result = panic; spawned = false; callbacks = [] }
take_at now (some i) available p = elim (get_elem? available i) [
  | none ↦ record { pool = p; result = panic; spawned = false; callbacks = [] }
  | some r ↦ hand_out now r (increment_use_count now (p.heap r)) p
]

unfoldable pub choose : ℤ → List ℕ → ProxyPool → Got
unfolding take_at pick_index
choose now [] p = record {
  pool = p;
  result = err no_available_proxy;
  spawned = false;
  callbacks = [];
}
choose now (r ∷ rs) p =
    take_at now (pick_index p.round_robin_idx (length (r ∷ rs))) (r ∷ rs)
      (record p { round_robin_idx = (p.round_robin_idx + 1) % two64 })

-- The part of Get after the pool may have been refreshed.
unfoldable pub select : ℤ → ProxyPool → Got
unfolding choose
select now p = choose now (filter_by (usable now p) p.proxies) p

-- After the cleanup: an empty pool is refreshed first, a small one in the background.
unfoldable pub refill : ℤ → ℤ → List ℕ → ProxyPool → Got
unfolding select
refill before now [] p =
    let r = refresh before p in
    let got = select now r.pool in record got { callbacks = r.callbacks ++ got.callbacks }
refill before now (r ∷ rs) p = record (select now p) {
  spawned = ltb_ℤ (pos (length (r ∷ rs))) p.min_pool_size;
}

-- The first time is that of the cleanup and of a refresh, the second that of the choice.
unfoldable pub get : ℤ → ℤ → ProxyPool → Got
unfolding cleanup_unsafe refill
get before now p = let q = cleanup_unsafe before p in refill before now q.proxies q

-- `GetString` and `GetURL` show the proxy that `Get` hands out.
abbrev show_result : (ProxyItem → Text) → ProxyPool → Result ℕ → Result Text
show_result f p (ok r) = ok (f (p.heap r))
show_result f p (err e) = err e
show_result f p panic = panic

unfoldable pub get_string : ℤ → ℤ → ProxyPool → ProxyPool × Result Text
unfolding get
get_string before now p =
    let got = get before now p in (got.pool, show_result to_text got.pool got.result)

unfoldable pub get_url : ℤ → ℤ → ProxyPool → ProxyPool × Result Text
unfolding get
get_url before now p = let got = get before now p in (got.pool, show_result url got.pool got.result)
