-- ===== src/ProxyPool/Pool/State.antt =====
-- proxypool/pool.go: the pool of proxies.
-- The slice of pointers is a list of references into `heap`, so that an item is shared between the
-- pool and whoever was handed it; `next` is the first free reference. What runs under the pool's lock
-- is one step and takes one reading of the clock.
use public_golibs.Common.{
  ℕ, ◌+◌, Bool, true, false, Option, none, List, [], ◌∷◌, ◌++◌, Text, if◌then◌else◌, text_eq, ◌==◌,
}
use public_golibs.Common.Int.{ℤ, pos, leb_ℤ}
use public_golibs.ProxyPool.Types.{Error, FetchFunc}
use public_golibs.ProxyPool.Item.{ProxyItem, new_proxy_item_with_config, to_text}

-- A call of one of the two callbacks.
pub data Callback : Type 0 where
  proxy_get : ℕ → Callback
  refreshed : ℕ → Option Error → Callback

-- `round_robin_idx` is the 64-bit pattern of the int. Of a callback only whether it is set is kept.
pub record ProxyPool : Type 0 where
  pub proxies : List ℕ
  pub heap : ℕ → ProxyItem
  pub next : ℕ
  pub refreshing : Bool
  pub api_url : Text
  pub max_use_count : ℤ
  pub expire_seconds : ℤ
  pub min_pool_size : ℤ
  pub fetch_func : Option FetchFunc
  pub on_proxy_get : Bool
  pub on_refresh : Bool
  pub round_robin_idx : ℕ
  pub last_err : Option Error

pub record Config : Type 0 where
  pub api_url : Text
  pub max_use_count : ℤ
  pub expire_seconds : ℤ
  pub min_pool_size : ℤ
  pub fetch_func : Option FetchFunc
  pub on_proxy_get : Bool
  pub on_refresh : Bool

abbrev positive_or : ℤ → ℤ → ℤ
positive_or n d = if leb_ℤ n (pos 0) then d else n

-- An address that no item lives at yet holds the zero item.
abbrev pub zero_item : ProxyItem
zero_item = record {
  ip = [];
  port = [];
  used_count = 0;
  max_use_count = pos 0;
  expire_time = pos 0;
  create_time = pos 0;
  last_use_time = none;
}

unfoldable pub new : Config → ProxyPool
new cfg = record {
  proxies = [];
  heap = λ r. zero_item;
  next = 0;
  refreshing = false;
  api_url = cfg.api_url;
  max_use_count = positive_or cfg.max_use_count (pos 5);
  expire_seconds = positive_or cfg.expire_seconds (pos 180);
  min_pool_size = positive_or cfg.min_pool_size (pos 3);
  fetch_func = cfg.fetch_func;
  on_proxy_get = cfg.on_proxy_get;
  on_refresh = cfg.on_refresh;
  round_robin_idx = 0;
  last_err = none;
}

-- The setters.
pub data Setting : Type 0 where
  api_url : Text → Setting
  max_use_count expire_seconds min_pool_size : ℤ → Setting
  fetch_func : Option FetchFunc → Setting
  on_proxy_get on_refresh : Bool → Setting

unfoldable pub set_option : Setting → ProxyPool → ProxyPool
set_option (Setting.api_url u) p = record p { api_url = u }
set_option (Setting.max_use_count n) p = record p { max_use_count = n }
set_option (Setting.expire_seconds n) p = record p { expire_seconds = n }
set_option (Setting.min_pool_size n) p = record p { min_pool_size = n }
set_option (Setting.fetch_func f) p = record p { fetch_func = f }
set_option (Setting.on_proxy_get b) p = record p { on_proxy_get = b }
set_option (Setting.on_refresh b) p = record p { on_refresh = b }

unfoldable pub last_refresh_error : ProxyPool → Option Error
last_refresh_error p = p.last_err

unfoldable pub set_last_refresh_error : Option Error → ProxyPool → ProxyPool
set_last_refresh_error e p = record p { last_err = e }

abbrev pub update : (ℕ → ProxyItem) → ℕ → ProxyItem → ℕ → ProxyItem
update h r v s = if s == r then v else h s

-- A call of an item's method through a pointer that the pool may share.
unfoldable pub on_item : ℕ → (ProxyItem → ProxyItem) → ProxyPool → ProxyPool
on_item r f p = record p { heap = update p.heap r (f (p.heap r)) }

unfoldable pub contains_key : (ℕ → ProxyItem) → Text → List ℕ → Bool
contains_key h key [] = false
contains_key h key (r ∷ rs) = if text_eq (to_text (h r)) key then true else contains_key h key rs

-- The new item at the end of the list.
unfoldable pub append_new : ℤ → Text → Text → ProxyPool → ProxyPool
append_new now ip port p = record p {
  proxies = p.proxies ++ p.next ∷ [];
  heap =
      update p.heap p.next
        (new_proxy_item_with_config now ip port p.max_use_count p.expire_seconds);
  next = p.next + 1;
}

unfoldable pub add_proxy : ℤ → Text → Text → ProxyPool → ProxyPool × Bool
unfolding contains_key append_new
add_proxy now ip port p =
    if contains_key p.heap (ip ++ b':' ∷ port) p.proxies
    then (p, false)
    else (append_new now ip port p, true)

unfoldable pub add_proxy_item : ℤ → ProxyItem → ProxyPool → ProxyPool × Bool
unfolding add_proxy
add_proxy_item now proxy p = add_proxy now proxy.ip proxy.port p
