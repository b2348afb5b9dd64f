-- ===== src/ProxyPool/Pool/Queries.antt =====
-- proxypool/pool.go: removal, sizes and statistics.
use public_golibs.Common.{
  ℕ, ◌+◌, ◌-◌, Bool, true, false, Option, none, some, List, [], ◌∷◌, ◌++◌, Text, if◌then◌else◌,
  length, filter_by, count_by, text_eq,
}
use public_golibs.Common.Int.{ℤ}
use public_golibs.ProxyPool.Item.{ProxyItem, to_text, is_available, is_expired, is_max_used}
use public_golibs.ProxyPool.Pool.State.{ProxyPool}
use public_golibs.ProxyPool.Pool.Get.{cleanup_unsafe, usable}

unfoldable pub cleanup : ℤ → ProxyPool → ProxyPool × ℕ
unfolding cleanup_unsafe
cleanup now p = let q = cleanup_unsafe now p in (q, length p.proxies - length q.proxies)

unfoldable pub clear : ProxyPool → ProxyPool
clear p = record p { proxies = [] }

-- The list without the first reference whose proxy reads `key`.
unfoldable pub remove_key : (ℕ → ProxyItem) → Text → List ℕ → Option (List ℕ)
remove_key h key [] = none
remove_key h key (r ∷ rs) =
    if text_eq (to_text (h r)) key
    then some rs
    else elim (remove_key h key rs) [ none ↦ none | some qs ↦ some (r ∷ qs) ]

abbrev with_proxies : ProxyPool → Option (List ℕ) → ProxyPool × Bool
with_proxies p none = (p, false)
with_proxies p (some rs) = (record p { proxies = rs }, true)

unfoldable pub remove_by_string : Text → ProxyPool → ProxyPool × Bool
unfolding remove_key
remove_by_string key p = with_proxies p (remove_key p.heap key p.proxies)

unfoldable pub remove : Text → Text → ProxyPool → ProxyPool × Bool
unfolding remove_key
remove ip port p = with_proxies p (remove_key p.heap (ip ++ b':' ∷ port) p.proxies)

unfoldable pub size : ProxyPool → ℕ
size p = length p.proxies

unfoldable pub available_count : ℤ → ProxyPool → ℕ
available_count now p = count_by (usable now p) p.proxies

pub record Stats : Type 0 where
  pub total : ℕ
  pub available : ℕ
  pub expired : ℕ
  pub max_used : ℕ

-- One round of the loop of GetStats.
unfoldable pub tally : ℤ → ProxyItem → Stats → Stats
tally now item s = record s {
  available = if is_available now item then s.available + 1 else s.available;
  expired = if is_expired now item then s.expired + 1 else s.expired;
  max_used = if is_max_used item then s.max_used + 1 else s.max_used;
}

unfoldable pub tally_all : ℤ → (ℕ → ProxyItem) → List ℕ → Stats → Stats
unfolding tally
tally_all now h [] s = s
tally_all now h (r ∷ rs) s = tally_all now h rs (tally now (h r) s)

unfoldable pub get_stats : ℤ → ProxyPool → Stats
unfolding tally_all
get_stats now p =
    tally_all now p.heap p.proxies
      (record { total = length p.proxies; available = 0; expired = 0; max_used = 0 })

unfoldable pub get_all : ProxyPool → List ℕ
get_all p = p.proxies

unfoldable pub get_available : ℤ → ProxyPool → List ℕ
get_available now p = filter_by (usable now p) p.proxies
