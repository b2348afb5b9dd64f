-- ===== src/ProxyPool/Pool/Limits.antt =====
-- The use limits of the proxies under every interleaving.
use public_golibs.Common.{
  ℕ, ◌≤◌, ◌≡◌, refl, some, List, [], ◌∷◌, ◌++◌, arith, Text, All, inl, inr, Bool-cases,
}
use public_golibs.Common.Int.{ℤ, pos_part}
use public_golibs.ProxyPool.Item.{ProxyItem, increment_use_count, new_proxy_item_with_config}
use public_golibs.ProxyPool.Pool.State.{
  ProxyPool, Config, Setting, set_option, on_item, add_proxy, append_new, contains_key, update, new,
}
use public_golibs.ProxyPool.Pool.Queries.{remove_by_string}
use public_golibs.ProxyPool.Pool.Steps.{
  ItemCall, increment, set_max, set_expire, extend, resets, call_item, Action, configure, item_call,
  add, clean, clear_all, remove_addr, remove_text, lock_refresh, report, unlock_refresh, pick, step,
  run, select_cases,
}

-- No proxy in memory was used more often than its limit allows, were the limit not negative. A proxy
-- that the pool has dropped is counted too.
abbrev pub Within : (ℕ → ProxyItem) → Type 0
Within h = (r : ℕ) → (h r).used_count ≤ pos_part (h r).max_use_count

-- Anything but a new limit on a proxy.
abbrev pub LeavesLimits : Action → Type 0
LeavesLimits (item_call r (set_max n)) = ⊥
LeavesLimits a = Unit {0}

update-Within :
    (h : ℕ → ProxyItem) (r : ℕ) (v : ProxyItem)
    → v.used_count ≤ pos_part v.max_use_count
    → Within h
    → Within (update h r v)
update-Within h r v e w s = ground (arith, w s)

increment-Within :
    (now : ℤ) (i j : ProxyItem)
    → increment_use_count now i ≡ some j
    → j.used_count ≤ pos_part j.max_use_count
unfolding increment_use_count
increment-Within now i j e = ground arith

call_item-Within :
    (r : ℕ) (c : ItemCall) (i : ProxyItem)
    → LeavesLimits (item_call r c)
    → i.used_count ≤ pos_part i.max_use_count
    → (call_item c i).used_count ≤ pos_part (call_item c i).max_use_count
unfolding call_item
call_item-Within r (increment now) i l h = ground arith
call_item-Within r (set_max n) i l h = absurd l
call_item-Within r (set_expire t) i l h = h
call_item-Within r (extend d) i l h = h
call_item-Within r (resets now n) i l h = omega arith

configure-heap : (s : Setting) (p : ProxyPool) → (set_option s p).heap ≡ p.heap
unfolding set_option
configure-heap (Setting.api_url u) p = refl
configure-heap _ p = refl

add_proxy-Within :
    (now : ℤ) (ip port : Text) (p : ProxyPool)
    → Within p.heap
    → Within (add_proxy now ip port p).0.heap
unfolding add_proxy append_new new_proxy_item_with_config
add_proxy-Within now ip port p w =
    elim (Bool-cases (contains_key p.heap (ip ++ b':' ∷ port) p.proxies)) [
      | inl e ↦ rw e w
      | inr e ↦ rw e (update-Within p.heap p.next _ (omega arith) w)
    ]

remove_by_string-heap : (key : Text) (p : ProxyPool) → (remove_by_string key p).0.heap ≡ p.heap
unfolding remove_by_string
remove_by_string-heap key p = ground arith

step-Within : (a : Action) (p : ProxyPool) → LeavesLimits a → Within p.heap → Within (step a p).heap
unfolding step on_item
step-Within (configure s) p l w = rw (configure-heap s p) w
step-Within (item_call r c) p l w =
    update-Within p.heap r (call_item c (p.heap r)) (call_item-Within r c (p.heap r) l (w r)) w
step-Within (add now ip port) p l w = add_proxy-Within now ip port p w
step-Within (clean now) p l w = w
step-Within clear_all p l w = w
step-Within (remove_addr ip port) p l w = rw (remove_by_string-heap (ip ++ b':' ∷ port) p) w
step-Within (remove_text key) p l w = rw (remove_by_string-heap key p) w
step-Within lock_refresh p l w = w
step-Within (report e) p l w = w
step-Within unlock_refresh p l w = w
step-Within (pick now) p l w =
    select_cases (λ q. Within q.heap) now p w (λ n. w)
      λ n r item e. update-Within p.heap r item (increment-Within now (p.heap r) item e) w

run-Within :
    (actions : List Action) (p : ProxyPool)
    → All LeavesLimits actions
    → Within p.heap
    → Within (run actions p).heap
unfolding run
run-Within [] p l w = w
run-Within (a ∷ rest) p l w = run-Within rest (step a p) l.1 (step-Within a p l.0 w)

-- In whatever order the critical sections run on a new pool, as long as none of them changes the limit
-- of a proxy that exists, no proxy that the pool ever created has more uses than its limit, or than 0
-- where the limit is negative.
pub run-new-Within :
    (cfg : Config) (actions : List Action)
    → All LeavesLimits actions
    → Within (run actions (new cfg)).heap
run-new-Within cfg actions l = run-Within actions (new cfg) l (unfold new in λ r. omega arith)
