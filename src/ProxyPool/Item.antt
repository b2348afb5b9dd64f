-- ===== src/ProxyPool/Item.antt =====
-- proxypool/proxy_item.go: one proxy with its use limit and its expiry.
-- A method is a function of the item; one that reads the clock takes the time, in nanoseconds.
use public_golibs.Common.{
  ℕ, ◌+◌, ◌-◌, ◌^◌, ◌<◌, ◌≡◌, Bool, true, ◌&&◌, not, Option, none, some, ◌∷◌, ◌++◌, arith, Text,
  codes, if◌then◌else◌,
}
use public_golibs.Common.Int.{
  ℤ, pos, negsuc, ◌+ℤ◌, ◌-ℤ◌, ◌*ℤ◌, ◌≤ℤ◌, ◌<ℤ◌, ltb_ℤ, leb_ℤ, wrap64, wrap64-eq,
}

-- The zero time.Time of a proxy that was never used is `none`.
pub record ProxyItem : Type 0 where
  pub ip : Text
  pub port : Text
  pub used_count : ℕ
  pub max_use_count : ℤ
  pub expire_time : ℤ
  pub create_time : ℤ
  pub last_use_time : Option ℤ

-- time.Duration(n) * time.Second, which wraps.
unfoldable pub seconds : ℤ → ℤ
seconds n = wrap64 (n *ℤ pos 1_000_000_000)

unfoldable pub new_proxy_item : ℤ → Text → Text → ProxyItem
new_proxy_item now ip port = record {
  ip = ip;
  port = port;
  used_count = 0;
  max_use_count = pos 5;
  expire_time = now +ℤ seconds (pos 180);
  create_time = now;
  last_use_time = none;
}

unfoldable pub new_proxy_item_with_config : ℤ → Text → Text → ℤ → ℤ → ProxyItem
new_proxy_item_with_config now ip port max_use_count expire_seconds = record {
  ip = ip;
  port = port;
  used_count = 0;
  max_use_count = max_use_count;
  expire_time = now +ℤ seconds expire_seconds;
  create_time = now;
  last_use_time = none;
}

-- `String`: ip:port
unfoldable pub to_text : ProxyItem → Text
to_text p = p.ip ++ b':' ∷ p.port

unfoldable pub url : ProxyItem → Text
url p = codes "http://" ++ p.ip ++ b':' ∷ p.port

unfoldable pub socks5_url : ProxyItem → Text
socks5_url p = codes "socks5://" ++ p.ip ++ b':' ∷ p.port

unfoldable pub is_available : ℤ → ProxyItem → Bool
is_available now p = ltb_ℤ now p.expire_time && ltb_ℤ (pos p.used_count) p.max_use_count

unfoldable pub is_expired : ℤ → ProxyItem → Bool
is_expired now p = ltb_ℤ p.expire_time now

unfoldable pub is_max_used : ProxyItem → Bool
is_max_used p = leb_ℤ p.max_use_count (pos p.used_count)

-- One round of the loop, in which no other goroutine moves the counter between its load and the
-- compare-and-swap. `none` is the result `false`.
unfoldable pub increment_use_count : ℤ → ProxyItem → Option ProxyItem
increment_use_count now p =
    if leb_ℤ p.max_use_count (pos p.used_count)
    then none
    else some (record p { used_count = p.used_count + 1; last_use_time = some now })

unfoldable pub get_used_count : ProxyItem → ℕ
get_used_count p = p.used_count

unfoldable pub get_max_use_count : ProxyItem → ℤ
get_max_use_count p = p.max_use_count

-- The int64 difference wraps.
unfoldable pub get_remaining_count : ProxyItem → ℤ
get_remaining_count p =
    let remaining = wrap64 (p.max_use_count -ℤ pos p.used_count) in
    if ltb_ℤ remaining (pos 0) then pos 0 else remaining

-- time.Until saturates at the limits of time.Duration.
abbrev saturate : ℤ → ℤ
saturate d =
    if ltb_ℤ (pos (2 ^ 63 - 1)) d
    then pos (2 ^ 63 - 1)
    else if ltb_ℤ d (negsuc (2 ^ 63 - 1))
    then negsuc (2 ^ 63 - 1)
    else d

unfoldable pub get_remaining_time : ℤ → ProxyItem → ℤ
get_remaining_time now p =
    let remaining = saturate (p.expire_time -ℤ now) in
    if ltb_ℤ remaining (pos 0) then pos 0 else remaining

unfoldable pub set_max_use_count : ℤ → ProxyItem → ProxyItem
set_max_use_count count p = record p { max_use_count = count }

unfoldable pub set_expire_time : ℤ → ProxyItem → ProxyItem
set_expire_time t p = record p { expire_time = t }

unfoldable pub extend_expire_time : ℤ → ProxyItem → ProxyItem
extend_expire_time duration p = record p { expire_time = p.expire_time +ℤ duration }

unfoldable pub reset : ℤ → ℤ → ProxyItem → ProxyItem
reset now expire_seconds p = record p {
  used_count = 0;
  expire_time = now +ℤ seconds expire_seconds;
  last_use_time = none;
}

-- An item is available exactly when it is neither expired nor used up and its expiry is not this
-- very instant, at which it is neither available nor expired.
pub availability :
    (now : ℤ) (p : ProxyItem)
    → is_available now p ≡ (
        not (is_expired now p)
        && not (is_max_used p)
        && not (leb_ℤ now p.expire_time && leb_ℤ p.expire_time now))
unfolding is_available is_expired is_max_used
availability now p = ground arith

-- An available item takes one more use: its counter grows by one, stays within its limit, and of the
-- other fields only the time of the last use changes.
pub increment_available :
    (now : ℤ) (p : ProxyItem)
    → is_available now p ≡ true
    → (increment_use_count now p
        ≡ some (record p { used_count = p.used_count + 1; last_use_time = some now }))
      × (pos (p.used_count + 1) ≤ℤ p.max_use_count)
unfolding is_available increment_use_count
increment_available now p h = (ground arith, ground arith)

-- The counter of a proxy that the loop refuses is at its limit or above, and a use counts once.
pub increment_cases :
    (now : ℤ) (p q : ProxyItem)
    → increment_use_count now p ≡ some q
    → (q.used_count ≡ p.used_count + 1) × (pos q.used_count ≤ℤ q.max_use_count)
unfolding increment_use_count
increment_cases now p q h = ground arith

-- What is left is the limit less the uses and at least 0, for a limit that is not negative.
pub remaining_count :
    (p : ProxyItem) (n : ℕ)
    → p.max_use_count ≡ pos n
    → n < 2 ^ 63
    → p.used_count < 2 ^ 63
    → get_remaining_count p ≡ pos (n - p.used_count)
unfolding get_remaining_count ◌-ℤ◌
remaining_count p n e hn hu =
    rw (e, wrap64-eq (pos n -ℤ pos p.used_count) (ground arith)) (ground arith)

-- `Reset` makes a proxy with a positive limit available until its new expiry.
pub reset_available :
    (now later expire_seconds : ℤ) (p : ProxyItem)
    → pos 0 <ℤ p.max_use_count
    → later <ℤ now +ℤ seconds expire_seconds
    → is_available later (reset now expire_seconds p) ≡ true
unfolding reset is_available
reset_available now later n p h t = ground arith
