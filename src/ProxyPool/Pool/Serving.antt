-- ===== src/ProxyPool/Pool/Serving.antt =====
-- Whom Get serves, and in what order.
use public_golibs.Common.{
  ℕ, ◌+◌, ◌%◌, ◌<◌, ◌≡◌, refl, true, some, List, [], ◌∷◌, arith, if◌then◌else◌, All, filter_by,
  get_elem?, get_elem?_within, length, ◌⊎◌, inl, inr, filter_by-All, All-get_elem?,
}
use public_golibs.Common.Int.{ℤ, two63, two64}
use public_golibs.ProxyPool.Types.{
  Result, ok, err, no_available_proxy, ProxyAddr, Fetched, fetched, failed,
}
use public_golibs.ProxyPool.Item.{ProxyItem, increment_use_count, increment_available}
use public_golibs.ProxyPool.Pool.State.{ProxyPool, update, add_proxy, append_new}
use public_golibs.ProxyPool.Pool.Refresh.{refresh, add_all, finish_refresh, fetch_addrs}
use public_golibs.ProxyPool.Pool.Get.{
  usable, cleanup_unsafe, select, choose, take_at, pick_index, hand_out, refill, get,
}

abbrev pub used_once : ℤ → ProxyItem → ProxyItem
used_once now i = record i { used_count = i.used_count + 1; last_use_time = some now }

-- The pool once the proxy at `r` was handed out.
abbrev pub handed_out : ℤ → ℕ → ProxyPool → ProxyPool
handed_out now r p = record p {
  round_robin_idx = p.round_robin_idx + 1;
  heap = update p.heap r (used_once now (p.heap r));
}

abbrev pub available_at : ℤ → ProxyPool → List ℕ
available_at now p = filter_by (usable now p) p.proxies

-- A refusal that changes nothing, or the proxy whose turn it is.
abbrev pub Serves : ℤ → ProxyPool → ProxyPool → Result ℕ → Type 0
Serves now p q result =
    ((available_at now p ≡ []) × (result ≡ err no_available_proxy) × (q ≡ p))
    ⊎ ((r : ℕ) × (get_elem? (available_at now p) (p.round_robin_idx % length (available_at now p))
          ≡ some r)
        × (result ≡ ok r)
        × (q ≡ handed_out now r p))

hand_out-some :
    (now : ℤ) (r : ℕ) (p : ProxyPool) (v : ProxyItem)
    → increment_use_count now (p.heap r) ≡ some v
    → ((hand_out now r (increment_use_count now (p.heap r)) p).result ≡ ok r)
      × ((hand_out now r (increment_use_count now (p.heap r)) p).pool
          ≡ record p { heap = update p.heap r v })
unfolding hand_out
hand_out-some now r p v e = rw e (refl, refl)

take_at-some :
    (now : ℤ) (i r : ℕ) (rs : List ℕ) (p : ProxyPool)
    → get_elem? rs i ≡ some r
    → usable now p r ≡ true
    → ((take_at now (some i) rs p).result ≡ ok r)
      × ((take_at now (some i) rs p).pool
          ≡ record p { heap = update p.heap r (used_once now (p.heap r)) })
unfolding take_at
take_at-some now i r rs p e u =
    rw (e, take_at)
      (hand_out-some now r p (used_once now (p.heap r)) (increment_available now (p.heap r) u).0)

pick_index_low : (bits n : ℕ) → bits < two63 → pick_index bits n ≡ some (bits % n)
unfolding pick_index
pick_index_low bits n h = ground arith

choose-Serves :
    (now : ℤ) (p : ProxyPool) (rs : List ℕ)
    → available_at now p ≡ rs
    → p.round_robin_idx < two63
    → Serves now p (choose now rs p).pool (choose now rs p).result
unfolding choose
choose-Serves now p [] e h = inl (e, refl, refl)
choose-Serves now p (r ∷ rs) e h =
    let i = p.round_robin_idx % length (r ∷ rs) in
    let (s, at) = get_elem?_within (r ∷ rs) i (grind arith) in
    let q = record p { round_robin_idx = p.round_robin_idx + 1 } in
    let all_usable : All (λ x. usable now p x ≡ true) (r ∷ rs) =
      rw e at (filter_by-All (usable now p) p.proxies) in
    let served =
      take_at-some now i s (r ∷ rs) q at
        (All-get_elem? (λ x. usable now p x ≡ true) (r ∷ rs) i s all_usable at) in
    let wrap : (p.round_robin_idx + 1) % two64 ≡ p.round_robin_idx + 1 = omega arith in
    rw (pick_index_low p.round_robin_idx (length (r ∷ rs)) h, wrap)
      (rw e (inr (s, at, served.0, served.1)))

pub select-Serves :
    (now : ℤ) (p : ProxyPool)
    → p.round_robin_idx < two63
    → Serves now p (select now p).pool (select now p).result
unfolding select
select-Serves now p h = choose-Serves now p (available_at now p) refl h

add_all_idx :
    (now : ℤ) (addrs : List ProxyAddr) (count : ℕ) (p : ProxyPool)
    → (add_all now addrs count p).0.round_robin_idx ≡ p.round_robin_idx
unfolding add_all add_proxy append_new
add_all_idx now [] count p = refl
add_all_idx now (a ∷ rest) count p =
    let added = add_proxy now a.ip a.port p in
    ground (arith, add_all_idx now rest (if added.1 then count + 1 else count) added.0)

finish_refresh_idx :
    (now : ℤ) (f : Fetched) (p : ProxyPool)
    → (finish_refresh now f p).pool.round_robin_idx ≡ p.round_robin_idx
unfolding finish_refresh
finish_refresh_idx now (fetched addrs) p = add_all_idx now addrs 0 _
finish_refresh_idx now (failed e) p = refl

refresh_idx : (now : ℤ) (p : ProxyPool) → (refresh now p).pool.round_robin_idx ≡ p.round_robin_idx
unfolding refresh
refresh_idx now p =
    ground (arith, finish_refresh_idx now (fetch_addrs now p.api_url p.fetch_func) p)

-- The pool that Get chooses from: cleaned, and refreshed if nothing is left.
abbrev pub refilled : ℤ → List ℕ → ProxyPool → ProxyPool
refilled now [] p = (refresh now p).pool
refilled now (r ∷ rs) p = p

abbrev pub ready : ℤ → ProxyPool → ProxyPool
ready now p = let q = cleanup_unsafe now p in refilled now q.proxies q

refilled_idx :
    (now : ℤ) (rs : List ℕ) (p : ProxyPool)
    → (refilled now rs p).round_robin_idx ≡ p.round_robin_idx
refilled_idx now [] p = refresh_idx now p
refilled_idx now (r ∷ rs) p = refl

refill-select :
    (before now : ℤ) (rs : List ℕ) (p : ProxyPool)
    → ((refill before now rs p).pool ≡ (select now (refilled before rs p)).pool)
      × ((refill before now rs p).result ≡ (select now (refilled before rs p)).result)
unfolding refill
refill-select before now [] p = (refl, refl)
refill-select before now (r ∷ rs) p = (refl, refl)

-- Get, for a counter of calls below 2 ^ 63, never panics. Either none of the proxies left by the cleanup
-- and the refresh of an empty pool is available, and it says so and changes nothing more; or it hands
-- out the one available proxy whose turn it is, counts one use of it, and touches no other proxy.
pub get-Serves :
    (before now : ℤ) (p : ProxyPool)
    → p.round_robin_idx < two63
    → Serves now (ready before p) (get before now p).pool (get before now p).result
unfolding get
get-Serves before now p h =
    let q = cleanup_unsafe before p in
    let same = refill-select before now q.proxies q in
    rw (same.0, same.1)
      (select-Serves now (ready before p)
        (unfold cleanup_unsafe in rw (refilled_idx before q.proxies q) h))
