-- ===== src/ProxyPool/Pool/Steps.antt =====
-- The pool as goroutines see it: each part of the code that runs under a lock is one action, and an
-- interleaving of calls, of background refreshes among them, is a list of actions.
use public_golibs.Common.{
  ℕ, ◌≡◌, true, false, Option, none, some, List, [], ◌∷◌, Text, filter_by, get_elem?, length, inl,
  inr, Option-cases,
}
use public_golibs.Common.Int.{ℤ}
use public_golibs.ProxyPool.Types.{Error}
use public_golibs.ProxyPool.Item.{
  ProxyItem, increment_use_count, set_max_use_count, set_expire_time, extend_expire_time, reset,
}
use public_golibs.ProxyPool.Pool.State.{
  ProxyPool, Setting, set_option, set_last_refresh_error, on_item, add_proxy, update,
}
use public_golibs.ProxyPool.Pool.Get.{
  usable, cleanup_unsafe, select, choose, take_at, pick_index, hand_out,
}
use public_golibs.ProxyPool.Pool.Queries.{remove, remove_by_string, clear}

-- A call on a proxy, through a pointer.
pub data ItemCall : Type 0 where
  increment : ℤ → ItemCall
  set_max : ℤ → ItemCall
  set_expire : ℤ → ItemCall
  extend : ℤ → ItemCall
  resets : ℤ → ℤ → ItemCall

abbrev or_same : ProxyItem → Option ProxyItem → ProxyItem
or_same i none = i
or_same i (some j) = j

unfoldable pub call_item : ItemCall → ProxyItem → ProxyItem
unfolding increment_use_count set_max_use_count set_expire_time extend_expire_time reset
call_item (increment now) i = or_same i (increment_use_count now i)
call_item (set_max n) i = set_max_use_count n i
call_item (set_expire t) i = set_expire_time t i
call_item (extend d) i = extend_expire_time d i
call_item (resets now n) i = reset now n i

pub data Action : Type 0 where
  configure : Setting → Action
  item_call : ℕ → ItemCall → Action
  add : ℤ → Text → Text → Action
  clean : ℤ → Action
  clear_all : Action
  remove_addr : Text → Text → Action
  remove_text : Text → Action
  lock_refresh : Action
  report : Option Error → Action
  unlock_refresh : Action
  pick : ℤ → Action

unfoldable pub step : Action → ProxyPool → ProxyPool
unfolding set_option on_item cleanup_unsafe clear remove remove_by_string set_last_refresh_error
step (configure s) p = set_option s p
step (item_call r c) p = on_item r (call_item c) p
step (add now ip port) p = (add_proxy now ip port p).0
step (clean now) p = cleanup_unsafe now p
step clear_all p = clear p
step (remove_addr ip port) p = (remove ip port p).0
step (remove_text key) p = (remove_by_string key p).0
step lock_refresh p = record p { refreshing = true }
step (report e) p = set_last_refresh_error e p
step unlock_refresh p = record p { refreshing = false }
step (pick now) p = (select now p).pool

unfoldable pub run : List Action → ProxyPool → ProxyPool
run [] p = p
run (a ∷ rest) p = run rest (step a p)

-- Whatever holds of the pool, and still holds once a proxy of it takes one more use, holds after the
-- choice of a proxy.
module _ (P : ProxyPool → Type 0) (now : ℤ) where
  take_at_cases :
      (i : Option ℕ) (available : List ℕ) (p : ProxyPool)
      → P p
      → ((r : ℕ) (item : ProxyItem)
          → increment_use_count now (p.heap r) ≡ some item
          → P (record p { heap = update p.heap r item }))
      → P (take_at now i available p).pool
  unfolding take_at hand_out
  take_at_cases none available p h used = h
  take_at_cases (some i) available p h used = elim (Option-cases (get_elem? available i)) [
    | inl e ↦ rw (e, take_at) h
    | inr (r, e) ↦
        rw (e, take_at)
          (elim (Option-cases (increment_use_count now (p.heap r))) [
            | inl full ↦ rw (full, hand_out) h
            | inr (item, more) ↦ rw (more, hand_out) (used r item more)
          ])
  ]

  pub select_cases :
      (p : ProxyPool)
      → P p
      → ((n : ℕ) → P (record p { round_robin_idx = n }))
      → ((n r : ℕ) (item : ProxyItem)
          → increment_use_count now (p.heap r) ≡ some item
          → P (record p { round_robin_idx = n; heap = update p.heap r item }))
      → P (select now p).pool
  unfolding select
  select_cases p h moved used = chosen (filter_by (usable now p) p.proxies)
    where
      chosen : (rs : List ℕ) → P (choose now rs p).pool
      chosen [] = unfold choose in h
      chosen (r ∷ rs) =
          unfold choose in
          take_at_cases (pick_index p.round_robin_idx (length (r ∷ rs))) (r ∷ rs) _ (moved _)
            (used _)
