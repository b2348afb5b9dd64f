-- ===== src/ProxyPool/Pool/Counts.antt =====
-- Sizes, statistics, cleanup and removal.
use public_golibs.Common.{
  ℕ, ◌+◌, ◌-◌, ◌≤◌, ◌≡◌, refl, true, false, none, some, List, [], ◌∷◌, arith, Text, if◌then◌else◌,
  All, filter_by, filter_by_idem, filter_by-All, count_by, count_by-le, length, length-filter_by,
  inl, inr, Bool-cases, Option-cases, text_eq, text_eq→eq, sym,
}
use public_golibs.Common.Int.{ℤ}
use public_golibs.ProxyPool.Item.{
  ProxyItem, is_available, is_expired, is_max_used, to_text, availability,
}
use public_golibs.ProxyPool.Pool.State.{ProxyPool, contains_key}
use public_golibs.ProxyPool.Pool.Get.{usable}
use public_golibs.ProxyPool.Pool.Queries.{
  Stats, tally, tally_all, get_stats, size, available_count, get_available, cleanup, remove_key,
  remove_by_string,
}
use public_golibs.ProxyPool.Pool.Keys.{IsValid, Distinct}

module _ (now : ℤ) (h : ℕ → ProxyItem) where
  pub tally_all_counts :
      (rs : List ℕ) (s : Stats)
      → let t = tally_all now h rs s in
        (t.total ≡ s.total)
        × (t.available ≡ s.available + count_by (λ r. is_available now (h r)) rs)
        × (t.expired ≡ s.expired + count_by (λ r. is_expired now (h r)) rs)
        × (t.max_used ≡ s.max_used + count_by (λ r. is_max_used (h r)) rs)
  unfolding tally_all
  tally_all_counts [] s = omega arith
  tally_all_counts (r ∷ rs) s =
      let (a, b, c, d) = tally_all_counts rs (tally now (h r) s) in
      (ground arith, ground arith, ground arith, ground arith)

  -- No proxy counts as available and as expired, or as available and as used up.
  counts_exclude :
      (rs : List ℕ)
      → (count_by (λ r. is_available now (h r)) rs + count_by (λ r. is_expired now (h r)) rs
          ≤ length rs)
        × (count_by (λ r. is_available now (h r)) rs + count_by (λ r. is_max_used (h r)) rs
            ≤ length rs)
  counts_exclude [] = omega arith
  counts_exclude (r ∷ rs) = (
    ground (arith, counts_exclude rs, availability now (h r)),
    ground (arith, counts_exclude rs, availability now (h r)),
  )

-- The statistics agree with the size and with the other counter, and an available proxy counts neither as
-- expired nor as used up.
pub get_stats_agree :
    (now : ℤ) (p : ProxyPool)
    → let s = get_stats now p in
      (s.total ≡ size p)
      × (s.available ≡ available_count now p)
      × (s.available + s.expired ≤ s.total)
      × (s.available + s.max_used ≤ s.total)
unfolding get_stats size available_count
get_stats_agree now p =
    let (a, b, c, d) =
      tally_all_counts now p.heap p.proxies
        (record { total = length p.proxies; available = 0; expired = 0; max_used = 0 }) in
    let (e, f) = counts_exclude now p.heap p.proxies in (a, omega arith, omega arith, omega arith)

-- A cleanup keeps the available proxies in their order and counts the others; a second one at the same
-- time finds nothing to do.
pub cleanup_lem :
    (now : ℤ) (p : ProxyPool)
    → let (q, removed) = cleanup now p in
      (q ≡ record p { proxies = get_available now p })
      × (removed + size q ≡ size p)
      × All (λ r. is_available now (q.heap r) ≡ true) q.proxies
      × (cleanup now q ≡ (q, 0))
unfolding cleanup get_available size
cleanup_lem now p =
    let f = usable now p in
    let shorter : length p.proxies - length (filter_by f p.proxies) + length (filter_by f p.proxies)
        ≡ length p.proxies =
      omega (arith, length-filter_by f p.proxies, count_by-le f p.proxies) in
    let rest : length (filter_by f p.proxies) - length (filter_by f p.proxies) ≡ 0 = omega arith in
    (refl, shorter, filter_by-All f p.proxies, rw (filter_by_idem f p.proxies, rest))

module _ (h : ℕ → ProxyItem) (key : Text) where
  remove_key-none : (rs : List ℕ) → remove_key h key rs ≡ none → contains_key h key rs ≡ false
  unfolding remove_key contains_key
  remove_key-none [] e = refl
  remove_key-none (r ∷ rs) e = ground (arith, remove_key-none rs)

  -- What is left after the removal of the only proxy with the key.
  remove_key-some :
      (rs qs : List ℕ)
      → remove_key h key rs ≡ some qs
      → Distinct h rs
      → (contains_key h key rs ≡ true)
        × (contains_key h key qs ≡ false)
        × (length rs ≡ length qs + 1)
  unfolding remove_key contains_key
  remove_key-some [] qs e d = cc
  remove_key-some (r ∷ rs) qs e d = elim (Bool-cases (text_eq (to_text (h r)) key)) [
    | inl hit ↦
        let same = text_eq→eq (to_text (h r)) key hit in
        let there : contains_key h key rs ≡ false = rw same at d.0 in ground (arith, there)
    | inr miss ↦ elim (Option-cases (remove_key h key rs)) [
      | inl e' ↦ ground arith
      | inr (ps, e') ↦ ground (arith, remove_key-some rs ps e' d.1)
    ]
  ]

-- Removal by ip:port succeeds exactly when a proxy of a valid pool has that key; afterwards none has, and
-- the pool is smaller by one if it succeeded and as large as before if not.
pub remove_by_string_lem :
    (key : Text) (p : ProxyPool)
    → IsValid p
    → let (q, done) = remove_by_string key p in
      (done ≡ contains_key p.heap key p.proxies)
      × (contains_key q.heap key q.proxies ≡ false)
      × (size p ≡ (if done then size q + 1 else size q))
unfolding remove_by_string size
remove_by_string_lem key p v = elim (Option-cases (remove_key p.heap key p.proxies)) [
  | inl miss ↦
      let free = remove_key-none p.heap key p.proxies miss in rw miss (sym free, free, refl)
  | inr (qs, hit) ↦
      let (a, b, c) = remove_key-some p.heap key p.proxies qs hit v.distinct in rw hit (sym a, b, c)
]
