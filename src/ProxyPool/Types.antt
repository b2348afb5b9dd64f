-- ===== src/ProxyPool/Types.antt =====
-- The errors and small types of the package proxypool.
use public_golibs.Common.{List, Text}
use public_golibs.Common.Int.{ℤ}

-- The package's error values; `fetch` is any error that a fetch function returns, and `join` is
-- errors.Join of two errors.
pub data Error : Type 0 where
  no_available_proxy api_url_empty fetch_func_unset : Error
  get_proxy_stopped invalid_get_proxy_mode auth_unset : Error
  fetch : Text → Error
  join : Error → Error → Error

pub data Result {ℓ} (A : Type ℓ) : Type ℓ where
  ok : A → Result A
  err : Error → Result A
  panic : Result A

pub record ProxyAddr : Type 0 where
  pub ip : Text
  pub port : Text

-- The two results of a fetch function, of which exactly one counts.
pub data Fetched : Type 0 where
  fetched : List ProxyAddr → Fetched
  failed : Error → Fetched

-- What a fetch function answers depends on the time at which it is called; it does not panic.
abbrev pub FetchFunc : Type 0
FetchFunc = ℤ → Text → Fetched
