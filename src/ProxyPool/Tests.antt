-- ===== src/ProxyPool/Tests.antt =====
-- Runs of the proxy pool, and its theorems at concrete inputs.
use public_golibs.Common.{
  ◌+◌, ◌≡◌, refl, true, false, none, some, List, [], ◌∷◌, arith, codes, trim_space, inl, inr,
  text_eq,
}
use public_golibs.Common.Int.{pos, ◌≤ℤ◌, ◌+ℤ◌, ◌*ℤ◌, wrap64}
use public_golibs.Common.Decimal.{format}
use public_golibs.ProxyPool.Types.{Result, ok, ProxyAddr, FetchFunc, fetched}
use public_golibs.ProxyPool.Item.{
  ProxyItem, new_proxy_item, new_proxy_item_with_config, to_text, is_available, increment_use_count,
  increment_available, seconds,
}
use public_golibs.ProxyPool.Pool.State.{ProxyPool, Config, new, add_proxy}
use public_golibs.ProxyPool.Pool.Refresh.{refresh, add_all}
use public_golibs.ProxyPool.Pool.Get.{get}
use public_golibs.ProxyPool.Pool.Keys.{IsValid, add_proxy-IsValid}
use public_golibs.ProxyPool.Pool.Serving.{Serves, ready, get-Serves}
use public_golibs.ProxyPool.Pool.Rotation.{picks, turns, picks-turns}
use public_golibs.ProxyPool.Pool.Steps.{run, add, pick, clean}
use public_golibs.ProxyPool.Pool.Safety.{run-new-IsValid}
use public_golibs.ProxyPool.Pool.Limits.{Within, run-new-Within}
use public_golibs.ProxyPool.Manager.{Proxy, ProxyResult, Rolls, new_proxy, virtual_ip}
use public_golibs.ProxyPool.Manager.Loop.{Round, retry}
use public_golibs.ProxyPool.Manager.Laws.{IsFinal, retry_answers}

abbrev addrs : List ProxyAddr
addrs =
    record { ip = codes "1.1.1.1"; port = codes "80" }
    ∷ record { ip = codes "2.2.2.2"; port = codes "81" }
    ∷ record { ip = codes "1.1.1.1"; port = codes "80" }
    ∷ []

abbrev one_fetch : FetchFunc
one_fetch now url = fetched addrs

abbrev config : Config
config = record {
  api_url = codes "http://api";
  max_use_count = pos 2;
  expire_seconds = pos 60;
  min_pool_size = pos 0;
  fetch_func = some one_fetch;
  on_proxy_get = true;
  on_refresh = true;
}

abbrev unnamed : Config
unnamed = record config { api_url = [] }

abbrev start : ProxyPool
start = new config

first_get : (get (pos 0) (pos 1) start).result ≡ ok 0
unfolding get refresh new add_all add_proxy new_proxy_item_with_config to_text text_eq is_available
    increment_use_count seconds wrap64 ◌+ℤ◌ ◌*ℤ◌ trim_space
first_get = refl

-- Two proxies, the limit two uses, the expiry a minute.
abbrev two : ProxyPool
two =
    (add_proxy (pos 0) (codes "2.2.2.2") (codes "81")
      (add_proxy (pos 0) (codes "1.1.1.1") (codes "80") start).0).0

start-IsValid : IsValid start
unfolding new
start-IsValid = record { distinct = tt; below = tt }

two-IsValid : IsValid two
two-IsValid =
    add_proxy-IsValid (pos 0) (codes "2.2.2.2") (codes "81") _
      (add_proxy-IsValid (pos 0) (codes "1.1.1.1") (codes "80") start start-IsValid)

get-Serves_example :
    Serves
      (pos 1)
      (ready (pos 0) start)
      (get (pos 0) (pos 1) start).pool
      (get (pos 0) (pos 1) start).result
unfolding new
get-Serves_example = get-Serves (pos 0) (pos 1) start (omega arith)

picks-turns_example : picks (pos 1 ∷ pos 2 ∷ []) two ≡ ok 0 ∷ ok 1 ∷ []
unfolding new add_proxy new_proxy_item_with_config to_text text_eq seconds wrap64 ◌+ℤ◌ ◌*ℤ◌ turns
picks-turns_example = picks-turns (pos 1 ∷ pos 2 ∷ []) two (λ e. cc) (omega arith) (omega arith)

run-new-IsValid_example :
    IsValid
      (run (add (pos 0) (codes "a") (codes "1") ∷ pick (pos 1) ∷ clean (pos 2) ∷ []) (new config))
run-new-IsValid_example =
    run-new-IsValid config (add (pos 0) (codes "a") (codes "1") ∷ pick (pos 1) ∷ clean (pos 2) ∷ [])

run-new-Within_example :
    Within (run (add (pos 0) (codes "a") (codes "1") ∷ pick (pos 1) ∷ []) (new config)).heap
run-new-Within_example =
    run-new-Within config (add (pos 0) (codes "a") (codes "1") ∷ pick (pos 1) ∷ []) (omega arith)

abbrev item : ProxyItem
item = new_proxy_item (pos 0) (codes "1.1.1.1") (codes "80")

increment_available_example :
    (increment_use_count (pos 1) item
      ≡ some (record item { used_count = item.used_count + 1; last_use_time = some (pos 1) }))
    × (pos (item.used_count + 1) ≤ℤ item.max_use_count)
unfolding new_proxy_item is_available seconds wrap64 ◌+ℤ◌ ◌*ℤ◌
increment_available_example = increment_available (pos 1) item refl

-- A manager with no pool yet.
abbrev manager : Proxy
manager = new_proxy

abbrev rounds : List Round
rounds =
    record { stop = false; before = pos 0; now = pos 0 }
    ∷ record { stop = true; before = pos 1; now = pos 1 }
    ∷ []

retry_answers_example :
    (a : Result ProxyResult) × ((retry one_fetch (codes "http") none rounds manager).1 ≡ some a)
    × IsFinal a
retry_answers_example = retry_answers one_fetch (codes "http") none rounds manager (inr (inl refl))

abbrev rolls : Rolls
rolls = record { a = 9; b = 0; c = 255; d = 0 }

virtual_ip_run : virtual_ip rolls ≡ codes "10.0.255.1"
unfolding virtual_ip format
virtual_ip_run = refl
