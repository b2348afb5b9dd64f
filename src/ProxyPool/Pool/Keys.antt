-- ===== src/ProxyPool/Pool/Keys.antt =====
-- The keys of a pool: no two of its proxies read alike.
use public_golibs.Common.{
  ℕ, ◌+◌, ◌<◌, ◌≡◌, refl, Bool, true, false, ◌||◌, List, [], ◌∷◌, ◌++◌, arith, Text, if◌then◌else◌,
  text_eq, text_eq_refl, text_eq_symm, All, All-append, length, length-append, filter_by, ==_iff,
  Bool-cases, not, inl, inr, ◌∙◌,
}
use public_golibs.Common.Int.{ℤ}
use public_golibs.ProxyPool.Types.{ProxyAddr}
use public_golibs.ProxyPool.Item.{ProxyItem, to_text, new_proxy_item_with_config}
use public_golibs.ProxyPool.Pool.State.{ProxyPool, contains_key, append_new, add_proxy, update}
use public_golibs.ProxyPool.Pool.Refresh.{add_all}

abbrev pub Distinct : (ℕ → ProxyItem) → List ℕ → Type 0
Distinct h [] = Unit {0}
Distinct h (r ∷ rs) = (contains_key h (to_text (h r)) rs ≡ false) × Distinct h rs

abbrev pub Below : ℕ → List ℕ → Type 0
Below n = All (λ r. r < n)

-- The proxies read differently, and live below the next free reference.
pub record IsValid (p : ProxyPool) : Type 0 where
  pub distinct : Distinct p.heap p.proxies
  pub below : Below p.next p.proxies

abbrev pub KeysAgree : (ℕ → ProxyItem) → (ℕ → ProxyItem) → List ℕ → Type 0
KeysAgree h g = All (λ r. to_text (h r) ≡ to_text (g r))

module _ (h g : ℕ → ProxyItem) where
  pub contains_key-KeysAgree :
      (k : Text) (rs : List ℕ) → KeysAgree h g rs → contains_key h k rs ≡ contains_key g k rs
  unfolding contains_key
  contains_key-KeysAgree k [] a = refl
  contains_key-KeysAgree k (r ∷ rs) a = rw (a.0, contains_key-KeysAgree k rs a.1)

  pub Distinct-KeysAgree : (rs : List ℕ) → KeysAgree h g rs → Distinct g rs → Distinct h rs
  Distinct-KeysAgree [] a d = tt
  Distinct-KeysAgree (r ∷ rs) a d =
      (rw (contains_key-KeysAgree _ rs a.1, a.0) d.0, Distinct-KeysAgree rs a.1 d.1)

module _ (h : ℕ → ProxyItem) where
  pub contains_key-append :
      (k : Text) (rs : List ℕ) (n : ℕ)
      → contains_key h k (rs ++ n ∷ []) ≡ (contains_key h k rs || text_eq (to_text (h n)) k)
  unfolding contains_key
  contains_key-append k [] n = ground arith
  contains_key-append k (r ∷ rs) n = ground (arith, contains_key-append k rs n)

  pub contains_key-filter_by :
      (k : Text) (f : ℕ → Bool) (rs : List ℕ)
      → contains_key h k rs ≡ false
      → contains_key h k (filter_by f rs) ≡ false
  unfolding contains_key
  contains_key-filter_by k f [] e = refl
  contains_key-filter_by k f (r ∷ rs) e = ground (arith, contains_key-filter_by k f rs)

  pub Distinct-filter_by :
      (f : ℕ → Bool) (rs : List ℕ) → Distinct h rs → Distinct h (filter_by f rs)
  Distinct-filter_by f [] d = tt
  Distinct-filter_by f (r ∷ rs) d =
      ground (arith, Distinct-filter_by f rs d.1, contains_key-filter_by (to_text (h r)) f rs d.0)

  pub Distinct-append :
      (rs : List ℕ) (n : ℕ)
      → Distinct h rs
      → contains_key h (to_text (h n)) rs ≡ false
      → Distinct h (rs ++ n ∷ [])
  unfolding contains_key
  Distinct-append [] n d e = (refl, tt)
  Distinct-append (r ∷ rs) n d e = ground (
    arith,
    Distinct-append rs n d.1,
    contains_key-append (to_text (h r)) rs n,
    text_eq_symm (to_text (h r)) (to_text (h n)),
  )

-- A write at a free reference is not seen below it.
pub KeysAgree-fresh :
    (h : ℕ → ProxyItem) (n : ℕ) (v : ProxyItem) (rs : List ℕ)
    → Below n rs
    → KeysAgree (update h n v) h rs
KeysAgree-fresh h n v [] b = tt
KeysAgree-fresh h n v (r ∷ rs) b = ground (arith, KeysAgree-fresh h n v rs b.1)

-- A write that keeps the key of the proxy keeps all keys.
pub KeysAgree-update :
    (h : ℕ → ProxyItem) (n : ℕ) (v : ProxyItem) (rs : List ℕ)
    → to_text v ≡ to_text (h n)
    → KeysAgree (update h n v) h rs
KeysAgree-update h n v [] e = tt
KeysAgree-update h n v (r ∷ rs) e = (elim_update r, KeysAgree-update h n v rs e)
  where
    elim_update : (r : ℕ) → to_text (update h n v r) ≡ to_text (h r)
    elim_update r = ground arith

Below-weaken : (n : ℕ) (rs : List ℕ) → Below n rs → Below (n + 1) rs
Below-weaken n [] b = tt
Below-weaken n (r ∷ rs) b = (omega arith, Below-weaken n rs b.1)

append_new_key :
    (now : ℤ) (ip port : Text) (p : ProxyPool)
    → to_text ((append_new now ip port p).heap p.next) ≡ ip ++ b':' ∷ port
unfolding append_new new_proxy_item_with_config to_text
append_new_key now ip port p = ground (arith, ==_iff p.next p.next)

append_new-KeysAgree :
    (now : ℤ) (ip port : Text) (p : ProxyPool)
    → IsValid p
    → KeysAgree (append_new now ip port p).heap p.heap p.proxies
unfolding append_new
append_new-KeysAgree now ip port p v = KeysAgree-fresh p.heap p.next _ p.proxies v.below

append_new-IsValid :
    (now : ℤ) (ip port : Text) (p : ProxyPool)
    → IsValid p
    → contains_key p.heap (ip ++ b':' ∷ port) p.proxies ≡ false
    → IsValid (append_new now ip port p)
append_new-IsValid now ip port p v e = record {
  distinct =
      unfold append_new in
      Distinct-append (append_new now ip port p).heap p.proxies p.next
        (Distinct-KeysAgree _ p.heap p.proxies (append_new-KeysAgree now ip port p v) v.distinct)
        (rw (append_new_key now ip port p)
          (contains_key-KeysAgree _ p.heap _ p.proxies (append_new-KeysAgree now ip port p v) ∙ e));
  below =
      unfold append_new in
      All-append (λ r. r < p.next + 1) p.proxies (p.next ∷ [])
        (Below-weaken p.next p.proxies v.below) (omega arith, tt);
}

-- Adding keeps a pool valid.
pub add_proxy-IsValid :
    (now : ℤ) (ip port : Text) (p : ProxyPool) → IsValid p → IsValid (add_proxy now ip port p).0
unfolding add_proxy
add_proxy-IsValid now ip port p v =
    elim (Bool-cases (contains_key p.heap (ip ++ b':' ∷ port) p.proxies)) [
      | inl e ↦ rw e v
      | inr e ↦ rw e (append_new-IsValid now ip port p v e)
    ]

pub add_all-IsValid :
    (now : ℤ) (addrs : List ProxyAddr) (count : ℕ) (p : ProxyPool)
    → IsValid p
    → IsValid (add_all now addrs count p).0
unfolding add_all
add_all-IsValid now [] count p v = v
add_all-IsValid now (a ∷ rest) count p v =
    add_all-IsValid now rest _ _ (add_proxy-IsValid now a.ip a.port p v)

KeysAgree-refl : (h : ℕ → ProxyItem) (rs : List ℕ) → KeysAgree h h rs
KeysAgree-refl h [] = tt
KeysAgree-refl h (r ∷ rs) = (refl, KeysAgree-refl h rs)

append_new-has_key :
    (now : ℤ) (ip port : Text) (p : ProxyPool)
    → let q = append_new now ip port p in contains_key q.heap (ip ++ b':' ∷ port) q.proxies ≡ true
append_new-has_key now ip port p =
    let q = append_new now ip port p in
    unfold append_new in
    rw (contains_key-append q.heap (ip ++ b':' ∷ port) p.proxies p.next)
      (ground (arith, append_new_key now ip port p, text_eq_refl (ip ++ b':' ∷ port)))

-- What adding an address does to a valid pool. Whether the key was there before decides whether the
-- pool stays as it is; afterwards the key is there, and no key is lost or touched.
pub add_proxy_lem :
    (now : ℤ) (ip port : Text) (p : ProxyPool)
    → IsValid p
    → let q = (add_proxy now ip port p).0 in
      let old = contains_key p.heap (ip ++ b':' ∷ port) p.proxies in
      ((add_proxy now ip port p).1 ≡ not old)
      × (contains_key q.heap (ip ++ b':' ∷ port) q.proxies ≡ true)
      × (length q.proxies ≡ (if old then length p.proxies else length p.proxies + 1))
      × KeysAgree q.heap p.heap p.proxies
unfolding add_proxy
add_proxy_lem now ip port p v =
    elim (Bool-cases (contains_key p.heap (ip ++ b':' ∷ port) p.proxies)) [
      | inl e ↦ rw e (refl, e, refl, KeysAgree-refl p.heap p.proxies)
      | inr e ↦ rw e (
        refl,
        append_new-has_key now ip port p,
        unfold append_new in omega (arith, length-append p.proxies (p.next ∷ [])),
        append_new-KeysAgree now ip port p v,
      )
    ]

add_proxy_grows :
    (now : ℤ) (ip port : Text) (p : ProxyPool)
    → length (add_proxy now ip port p).0.proxies
      ≡ (if (add_proxy now ip port p).1 then length p.proxies + 1 else length p.proxies)
unfolding add_proxy append_new
add_proxy_grows now ip port p = ground (arith, length-append p.proxies (p.next ∷ []))

-- The loop of Refresh counts exactly the proxies by which the pool grows.
pub add_all_count :
    (now : ℤ) (addrs : List ProxyAddr) (count : ℕ) (p : ProxyPool)
    → (add_all now addrs count p).1 + length p.proxies
      ≡ count + length (add_all now addrs count p).0.proxies
unfolding add_all
add_all_count now [] count p = omega arith
add_all_count now (a ∷ rest) count p =
    let added = add_proxy now a.ip a.port p in
    ground (
      arith,
      add_all_count now rest (if added.1 then count + 1 else count) added.0,
      add_proxy_grows now a.ip a.port p,
    )

append_new-keeps :
    (now : ℤ) (ip port k : Text) (p : ProxyPool)
    → IsValid p
    → contains_key p.heap k p.proxies ≡ true
    → let q = append_new now ip port p in contains_key q.heap k q.proxies ≡ true
append_new-keeps now ip port k p v e =
    let q = append_new now ip port p in
    unfold append_new in
    rw (contains_key-append q.heap k p.proxies p.next) (
      ground (
        arith,
        contains_key-KeysAgree q.heap p.heap k p.proxies (append_new-KeysAgree now ip port p v),
      ))

-- Adding keeps every key that is there.
pub add_proxy-keeps :
    (now : ℤ) (ip port k : Text) (p : ProxyPool)
    → IsValid p
    → contains_key p.heap k p.proxies ≡ true
    → let q = (add_proxy now ip port p).0 in contains_key q.heap k q.proxies ≡ true
unfolding add_proxy
add_proxy-keeps now ip port k p v e =
    elim (Bool-cases (contains_key p.heap (ip ++ b':' ∷ port) p.proxies)) [
      | inl old ↦ rw old e
      | inr new ↦ rw new (append_new-keeps now ip port k p v e)
    ]
