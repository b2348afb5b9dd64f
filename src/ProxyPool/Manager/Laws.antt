-- ===== src/ProxyPool/Manager/Laws.antt =====
-- What the manager gives out.
use public_golibs.Common.{
  ℕ, ◌+◌, ◌<◌, ◌≤◌, ◌≡◌, refl, true, Option, some, List, [], ◌∷◌, ◌++◌, arith, Text, inl, inr, ◌⊎◌,
  Bool-cases, Option-cases, All, length, sym, ◌∙◌,
}
use mathlib.Core.Bool.{true≢false}
use public_golibs.Common.Int.{pos}
use public_golibs.Common.Split.{split, Lacks, split-append, split-Lacks}
use public_golibs.Common.Decimal.{format, value, value-format, format-IsDigit, IsDigit}
use public_golibs.ProxyPool.Types.{Error, Result, ok, err, panic, FetchFunc}
use public_golibs.ProxyPool.Pool.State.{set_option, new}
use public_golibs.ProxyPool.Manager.{
  Proxy, ProxyResult, Rolls, get_virtual_proxy, virtual_ip, set_pool_max_use_count,
  set_pool_expire_seconds, set_pool_min_size, set_pool_api, init_pool,
}
use public_golibs.ProxyPool.Manager.Loop.{Round, retry, stopped, after_attempt}

-- A proxy, a panic, or the error of a loop that was stopped.
abbrev pub IsFinal : Result ProxyResult → Type 0
IsFinal (ok a) = Unit {0}
IsFinal (err e) = (last : Option Error) × (e ≡ stopped last)
IsFinal panic = Unit {0}

abbrev pub SomeStop : List Round → Type 0
SomeStop [] = ⊥
SomeStop (r ∷ rounds) = (r.stop ≡ true) ⊎ SomeStop rounds

abbrev Answers : Proxy × Option (Result ProxyResult) → Type 0
Answers t = (a : Result ProxyResult) × (t.1 ≡ some a) × IsFinal a

after_attempt-Answers :
    (go : Error → Proxy → Proxy × Option (Result ProxyResult)) (t : Proxy × Result ProxyResult)
    → ((e : Error) (q : Proxy) → Answers (go e q))
    → Answers (after_attempt go t)
after_attempt-Answers go (q, ok a) h = (ok a, refl, tt)
after_attempt-Answers go (q, err e) h = h e q
after_attempt-Answers go (q, panic) h = (panic, refl, tt)

-- The loop that must succeed ends no later than in the first round that finds the stop flag set, and it
-- ends with a proxy, with a panic, or with the error of a stopped loop: never with the pool's error alone.
pub retry_answers :
    (fetch : FetchFunc) (kind : Text) (last : Option Error) (rounds : List Round) (p : Proxy)
    → SomeStop rounds
    → (a : Result ProxyResult) × ((retry fetch kind last rounds p).1 ≡ some a) × IsFinal a
unfolding retry
retry_answers fetch kind last [] p s = absurd s
retry_answers fetch kind last (r ∷ rounds) p s = elim (Bool-cases r.stop) [
  | inl stop ↦ rw (stop, retry) (err (stopped last), refl, (last, refl))
  | inr go ↦
      let later : SomeStop rounds = elim s [
        | inl stop ↦ absurd (true≢false (sym stop ∙ go))
        | inr l ↦ l
      ] in
      rw (go, retry)
        (after_attempt-Answers (λ e q. retry fetch kind (some e) rounds q) _
          λ e q. retry_answers fetch kind (some e) rounds q later)
]

-- With positive numbers and any address it makes no difference whether the manager is configured before
-- its pool is first needed or after.
pub init_pool-set :
    (fetch : FetchFunc) (n : ℕ) (u : Text) (p : Proxy)
    → 0 < n
    → (init_pool fetch (set_pool_max_use_count (pos n) p)
        ≡ set_pool_max_use_count (pos n) (init_pool fetch p))
      × (init_pool fetch (set_pool_expire_seconds (pos n) p)
          ≡ set_pool_expire_seconds (pos n) (init_pool fetch p))
      × (init_pool fetch (set_pool_min_size (pos n) p)
          ≡ set_pool_min_size (pos n) (init_pool fetch p))
      × (init_pool fetch (set_pool_api u p) ≡ set_pool_api u (init_pool fetch p))
unfolding init_pool set_pool_max_use_count set_pool_expire_seconds set_pool_min_size set_pool_api
    set_option new
init_pool-set fetch n u p h = elim (Option-cases p.pool) [
  | inl unset ↦ (ground arith, ground arith, ground arith, ground arith)
  | inr (q, given) ↦ (ground arith, ground arith, ground arith, ground arith)
]

Lacks-dot : (s : Text) → All IsDigit s → Lacks b'.' s
Lacks-dot [] d = tt
Lacks-dot (c ∷ s) d = (omega arith, Lacks-dot s d.1)

split-format : (n : ℕ) (t : Text) → split b'.' (format n ++ b'.' ∷ t) ≡ format n ∷ split b'.' t
split-format n t = split-append b'.' (format n) t (Lacks-dot (format n) (format-IsDigit n))

split-virtual_ip :
    (r : Rolls)
    → split b'.' (virtual_ip r) ≡ format (r.a + 1) ∷ format r.b ∷ format r.c ∷ format (r.d + 1) ∷ []
unfolding virtual_ip
split-virtual_ip r = rw (
  split-format (r.a + 1),
  split-format r.b,
  split-format r.c,
  split-Lacks b'.' (format (r.d + 1)) (Lacks-dot _ (format-IsDigit (r.d + 1))),
)

-- The four parts of a made-up address, read back as numbers.
abbrev pub InRange : List Text → Type 0
InRange (a ∷ b ∷ c ∷ d ∷ []) =
    (1 ≤ value a)
    × (value a ≤ 223)
    × (value b ≤ 255)
    × (value c ≤ 255)
    × (1 ≤ value d)
    × (value d ≤ 254)
InRange _ = ⊥

-- For rolls below the limits that rand.Intn is given, the made-up address has four parts between dots,
-- which read as numbers from 1 to 223, to 255 twice, and from 1 to 254; all of the nine headers carry it.
pub virtual_proxy :
    (r : Rolls)
    → (r.a < 223) × (r.b < 256) × (r.c < 256) × (r.d < 254)
    → (x : ProxyResult) × (get_virtual_proxy r ≡ ok x)
      × InRange (split b'.' (virtual_ip r))
      × All (λ h. h.1 ≡ virtual_ip r) x.headers
      × (length x.headers ≡ 9)
unfolding get_virtual_proxy
virtual_proxy r h = (
  _,
  refl,
  rw (split-virtual_ip r) (
      omega (
        arith,
        value-format (r.a + 1),
        value-format r.b,
        value-format r.c,
        value-format (r.d + 1),
      )),
  ground arith,
  refl,
)
