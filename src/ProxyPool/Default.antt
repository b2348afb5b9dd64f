-- ===== src/ProxyPool/Default.antt =====
-- proxypool/singleton.go: the default pool of the package.
use public_golibs.Common.{◌≡◌, refl, Option, none, some}
use public_golibs.Common.Int.{ℤ}
use public_golibs.ProxyPool.Pool.State.{ProxyPool, Config, new}
use public_golibs.ProxyPool.Pool.Get.{Got, get}
use public_golibs.ProxyPool.Pool.Queries.{Stats, get_stats}

pub record Globals : Type 0 where
  pub default_pool : Option ProxyPool
  pub default_cfg : Config

abbrev pub pool_or : Config → Option ProxyPool → ProxyPool
pool_or cfg none = new cfg
pool_or cfg (some p) = p

unfoldable pub default : Globals → Globals × ProxyPool
default g = let p = pool_or g.default_cfg g.default_pool in (record g { default_pool = some p }, p)

unfoldable pub init_default : Config → Globals → Globals × ProxyPool
init_default cfg g = (record { default_pool = some (new cfg); default_cfg = cfg }, new cfg)

-- The two times are those of Get of the pool.
unfoldable pub get_default : ℤ → ℤ → Globals → Globals × Got
unfolding default get
get_default before now g =
    let (h, p) = default g in
    let got = get before now p in (record h { default_pool = some got.pool }, got)

unfoldable pub get_default_stats : ℤ → Globals → Globals × Stats
unfolding default get_stats
get_default_stats now g = let (h, p) = default g in (h, get_stats now p)

-- The default pool, once it is there, stays the same until it is built anew: asking twice gives what
-- asking once gave, a pool that Get has changed is the one that is given next, and building it anew gives
-- a pool of the new configuration, whatever was there.
pub default_pool_lem :
    (g : Globals) (cfg : Config) (before now : ℤ)
    → (default (default g).0 ≡ default g)
      × ((default (get_default before now g).0).1 ≡ (get before now (default g).1).pool)
      × (default (init_default cfg g).0 ≡ init_default cfg g)
unfolding default get_default init_default
default_pool_lem g cfg before now = (refl, refl, refl)
