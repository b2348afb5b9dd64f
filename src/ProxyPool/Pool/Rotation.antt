-- ===== src/ProxyPool/Pool/Rotation.antt =====
-- The round robin of Get over proxies that stay available.
use public_golibs.Common.{
  ℕ, zero, suc, ◌+◌, ◌%◌, ◌<◌, ◌≡◌, ◌≢◌, refl, Option, none, some, List, [], ◌∷◌, arith, Bool-cases,
  ==_iff, All, filter_by, get_elem?, length, inl, inr, ◌==◌, ap, sym, ◌∙◌,
}
use mathlib.Core.Path.{subst}
use public_golibs.Common.Int.{ℤ, pos, two63, ◌<ℤ◌, ◌≤ℤ◌}
use public_golibs.ProxyPool.Types.{Result, ok, panic}
use public_golibs.ProxyPool.Item.{ProxyItem, is_available}
use public_golibs.ProxyPool.Pool.State.{ProxyPool, update}
use public_golibs.ProxyPool.Pool.Get.{usable, select}
use public_golibs.ProxyPool.Pool.Serving.{select-Serves, handed_out, used_once}

-- One choice after the other, at the given times, with nothing in between.
unfoldable pub picks : List ℤ → ProxyPool → List (Result ℕ)
picks [] p = []
picks (now ∷ later) p = let got = select now p in got.result ∷ picks later got.pool

-- The element at an index, or the panic of an index out of range.
abbrev pub at_index : Option ℕ → Result ℕ
at_index none = panic
at_index (some r) = ok r

-- The list read round and round, from an index on.
unfoldable pub turns : ℕ → ℕ → List ℕ → List (Result ℕ)
turns zero i rs = []
turns (suc k) i rs = at_index (get_elem? rs (i % length rs)) ∷ turns k (i + 1) rs

-- Unexpired at each of the times, with a use left for each of them.
abbrev pub Lasts : List ℤ → ProxyItem → Type 0
Lasts times i =
    All (λ now. now <ℤ i.expire_time) times × (pos (i.used_count + length times) ≤ℤ i.max_use_count)

abbrev pub AllLast : List ℤ → ProxyPool → List ℕ → Type 0
AllLast times p = All (λ r. Lasts times (p.heap r))

lasting_available :
    (now : ℤ) (later : List ℤ) (p : ProxyPool) (rs : List ℕ)
    → AllLast (now ∷ later) p rs
    → filter_by (usable now p) rs ≡ rs
unfolding is_available
lasting_available now later p [] l = refl
lasting_available now later p (r ∷ rs) l = ground (arith, lasting_available now later p rs l.1)

later_last :
    (now : ℤ) (later : List ℤ) (i : ProxyItem)
    → Lasts (now ∷ later) i
    → Lasts later i × Lasts later (used_once now i)
later_last now later i l = ((l.0.1, omega arith), (l.0.1, omega arith))

update-Lasts :
    (h : ℕ → ProxyItem) (later : List ℤ) (r s : ℕ) (v : ProxyItem)
    → Lasts later (h s)
    → (s ≡ r → Lasts later v)
    → Lasts later (update h r v s)
update-Lasts h later r s v kept written = elim (Bool-cases (s == r)) [
  | inl hit ↦ rw hit (written ((==_iff s r).0 hit))
  | inr miss ↦ rw miss kept
]

handed_out-AllLast :
    (now : ℤ) (later : List ℤ) (r : ℕ) (p : ProxyPool) (rs : List ℕ)
    → AllLast (now ∷ later) p rs
    → AllLast later (handed_out now r p) rs
handed_out-AllLast now later r p [] l = tt
handed_out-AllLast now later r p (s ∷ rs) l =
    let both = later_last now later (p.heap s) l.0 in
    (
      update-Lasts p.heap later r s (used_once now (p.heap r)) both.0
          (λ e. subst (λ x. Lasts later (used_once now (p.heap x))) e both.1),
      handed_out-AllLast now later r p rs l.1,
    )

-- For a pool that is not empty, whose proxies stay unexpired at all the given times with a use left for
-- each, choices at those times, with nothing in between, go round the proxies in the order of the list,
-- the first at the pool's index. The counter of calls stays below 2 ^ 63.
pub picks-turns :
    (times : List ℤ) (p : ProxyPool)
    → p.proxies ≢ []
    → p.round_robin_idx + length times < two63
    → AllLast times p p.proxies
    → picks times p ≡ turns (length times) p.round_robin_idx p.proxies
unfolding picks turns
picks-turns [] p some_proxy h l = refl
picks-turns (now ∷ later) p some_proxy h l =
    let all = lasting_available now later p p.proxies l in
    elim (select-Serves now p (omega arith)) [
      | inl (empty, _, _) ↦ absurd (some_proxy (sym all ∙ empty))
      | inr (r, at, result, pool) ↦
          let turn : get_elem? p.proxies (p.round_robin_idx % length p.proxies) ≡ some r =
            rw all at at in
          rw (result, pool, turn)
            (ap (◌∷◌ (ok r)) (
              picks-turns later (handed_out now r p) some_proxy (omega arith)
                (handed_out-AllLast now later r p p.proxies l)))
    ]
