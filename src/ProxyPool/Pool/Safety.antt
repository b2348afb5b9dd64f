-- ===== src/ProxyPool/Pool/Safety.antt =====
-- The keys of a pool under every interleaving.
use public_golibs.Common.{
  ℕ, ◌<◌, ◌≡◌, refl, false, some, List, [], ◌∷◌, ◌++◌, arith, Text, inl, inr, Option-cases,
  All-filter_by,
}
use public_golibs.Common.Int.{ℤ}
use public_golibs.ProxyPool.Item.{ProxyItem, to_text, increment_use_count}
use public_golibs.ProxyPool.Pool.State.{
  ProxyPool, Config, Setting, set_option, set_last_refresh_error, on_item, contains_key, update,
  new,
}
use public_golibs.ProxyPool.Pool.Get.{usable, cleanup_unsafe}
use public_golibs.ProxyPool.Pool.Queries.{remove_by_string, remove_key, clear}
use public_golibs.ProxyPool.Pool.Keys.{
  IsValid, Distinct, Below, Distinct-filter_by, Distinct-KeysAgree, KeysAgree-update,
  add_proxy-IsValid,
}
use public_golibs.ProxyPool.Pool.Steps.{
  ItemCall, increment, set_max, set_expire, extend, resets, call_item, Action, configure, item_call,
  add, clean, clear_all, remove_addr, remove_text, lock_refresh, report, unlock_refresh, pick, step,
  run, select_cases,
}

call_item_key : (c : ItemCall) (i : ProxyItem) → to_text (call_item c i) ≡ to_text i
unfolding call_item to_text
call_item_key (increment now) i = ground arith
call_item_key (set_max n) i = refl
call_item_key (set_expire t) i = refl
call_item_key (extend d) i = refl
call_item_key (resets now n) i = refl

update-IsValid :
    (p : ProxyPool) (r : ℕ) (v : ProxyItem)
    → to_text v ≡ to_text (p.heap r)
    → IsValid p
    → IsValid (record p { heap = update p.heap r v })
update-IsValid p r v e valid = record {
  distinct =
      Distinct-KeysAgree (update p.heap r v) p.heap p.proxies
        (KeysAgree-update p.heap r v p.proxies e) valid.distinct;
  below = valid.below;
}

module _ (h : ℕ → ProxyItem) (key : Text) where
  contains_key-remove_key :
      (k : Text) (rs qs : List ℕ)
      → remove_key h key rs ≡ some qs
      → contains_key h k rs ≡ false
      → contains_key h k qs ≡ false
  unfolding remove_key contains_key
  contains_key-remove_key k [] qs e n = cc
  contains_key-remove_key k (r ∷ rs) qs e n = elim (Option-cases (remove_key h key rs)) [
    | inl miss ↦ ground arith
    | inr (ps, hit) ↦ ground (arith, contains_key-remove_key k rs ps hit)
  ]

  remove_key-Distinct :
      (rs qs : List ℕ) → remove_key h key rs ≡ some qs → Distinct h rs → Distinct h qs
  unfolding remove_key
  remove_key-Distinct [] qs e d = cc
  remove_key-Distinct (r ∷ rs) qs e d = elim (Option-cases (remove_key h key rs)) [
    | inl miss ↦ ground arith
    | inr (ps, hit) ↦ ground (
      arith,
      remove_key-Distinct rs ps hit d.1,
      contains_key-remove_key (to_text (h r)) rs ps hit d.0,
    )
  ]

  remove_key-Below :
      (n : ℕ) (rs qs : List ℕ) → remove_key h key rs ≡ some qs → Below n rs → Below n qs
  unfolding remove_key
  remove_key-Below n [] qs e b = cc
  remove_key-Below n (r ∷ rs) qs e b = elim (Option-cases (remove_key h key rs)) [
    | inl miss ↦ ground arith
    | inr (ps, hit) ↦ ground (arith, remove_key-Below n rs ps hit b.1)
  ]

remove_by_string-IsValid :
    (key : Text) (p : ProxyPool) → IsValid p → IsValid (remove_by_string key p).0
unfolding remove_by_string
remove_by_string-IsValid key p v = elim (Option-cases (remove_key p.heap key p.proxies)) [
  | inl miss ↦ rw miss v
  | inr (qs, hit) ↦ rw hit (record {
    distinct = remove_key-Distinct p.heap key p.proxies qs hit v.distinct;
    below = remove_key-Below p.heap key p.next p.proxies qs hit v.below;
  })
]

increment_key :
    (now : ℤ) (i j : ProxyItem) → increment_use_count now i ≡ some j → to_text j ≡ to_text i
unfolding increment_use_count to_text
increment_key now i j e = ground arith

configure-IsValid : (s : Setting) (p : ProxyPool) → IsValid p → IsValid (set_option s p)
unfolding set_option
configure-IsValid (Setting.api_url u) p v = record { distinct = v.distinct; below = v.below }
configure-IsValid _ p v = record { distinct = v.distinct; below = v.below }

-- Every action keeps a pool valid.
pub step-IsValid : (a : Action) (p : ProxyPool) → IsValid p → IsValid (step a p)
unfolding step on_item
step-IsValid (configure s) p v = configure-IsValid s p v
step-IsValid (item_call r c) p v =
    update-IsValid p r (call_item c (p.heap r)) (call_item_key c (p.heap r)) v
step-IsValid (add now ip port) p v = add_proxy-IsValid now ip port p v
step-IsValid (clean now) p v = record {
  distinct = unfold cleanup_unsafe in Distinct-filter_by p.heap (usable now p) p.proxies v.distinct;
  below = unfold cleanup_unsafe in All-filter_by (λ r. r < p.next) (usable now p) p.proxies v.below;
}
step-IsValid clear_all p v = unfold clear in record { distinct = tt; below = tt }
step-IsValid (remove_addr ip port) p v = (remove_by_string-IsValid (ip ++ b':' ∷ port) p v)
step-IsValid (remove_text key) p v = remove_by_string-IsValid key p v
step-IsValid lock_refresh p v = record { distinct = v.distinct; below = v.below }
step-IsValid (report e) p v =
    unfold set_last_refresh_error in record { distinct = v.distinct; below = v.below }
step-IsValid unlock_refresh p v = record { distinct = v.distinct; below = v.below }
step-IsValid (pick now) p v =
    select_cases IsValid now p v (λ n. record { distinct = v.distinct; below = v.below })
      λ n r item e.
        update-IsValid (record p { round_robin_idx = n }) r item
          (increment_key now (p.heap r) item e) (record { distinct = v.distinct; below = v.below })

run-IsValid : (actions : List Action) (p : ProxyPool) → IsValid p → IsValid (run actions p)
unfolding run
run-IsValid [] p v = v
run-IsValid (a ∷ rest) p v = run-IsValid rest (step a p) (step-IsValid a p v)

-- In whatever order the goroutines' critical sections run on a new pool, no two proxies of the pool
-- have the same ip:port, and each lives below the next free reference.
pub run-new-IsValid : (cfg : Config) (actions : List Action) → IsValid (run actions (new cfg))
run-new-IsValid cfg actions =
    run-IsValid actions (new cfg) (unfold new in record { distinct = tt; below = tt })
