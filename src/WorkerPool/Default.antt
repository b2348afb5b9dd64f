-- ===== src/WorkerPool/Default.antt =====
-- workerpool/singleton.go: the default pool of the package.
use public_golibs.Common.{
  ℕ, zero, suc, ◌+◌, ◌<◌, ◌≡◌, refl, Bool, true, false, Option, none, some, List, [], ◌∷◌, arith,
  length, if◌then◌else◌, inl, inr, Option-cases, ap, ◌∙◌,
}
use public_golibs.Common.Int.{ℤ}
use public_golibs.WorkerPool.Pool.{
  Task, Pool, not_called, cancelling, broadcasting, draining, returned, new, submit, enqueue,
  resize, broadcast, stop, wake, at_least_one,
}
use public_golibs.WorkerPool.Steps.{or_stay, stats, Stats}

pub record Globals : Type 0 where
  pub default_pool : Option Pool
  pub default_max_workers : ℤ

-- The pool in use, or a new one if there is none or it was stopped.
abbrev pub usable : ℤ → Option Pool → Pool
usable n none = new n
usable n (some p) = if p.stopped then new n else p

unfoldable pub default : Globals → Globals × Pool
default g =
    let p = usable g.default_max_workers g.default_pool in (record g { default_pool = some p }, p)

-- Resize, with the broadcast at once.
abbrev resize_now : ℤ → Pool → Pool
resize_now n p = let q = or_stay p (resize n p) in or_stay q (broadcast q.broadcasts q)

abbrev resize_running : ℤ → Option Pool → Option Pool
resize_running n none = none
resize_running n (some p) = some (if p.stopped then p else resize_now n p)

unfoldable pub set_default_max_workers : ℤ → Globals → Globals
set_default_max_workers n g =
    let m = at_least_one n in
    record { default_pool = resize_running m g.default_pool; default_max_workers = m }

-- Submit, both halves at once: false where the pool refuses, and `none` while the queue is full and the
-- call waits.
abbrev pub submit_now : Task → Pool → Option (Pool × Bool)
submit_now t p = elim (submit t p) [
  | none ↦ some (p, false)
  | some q ↦ elim (enqueue 0 q) [ none ↦ none | some r ↦ some (r, true) ]
]

abbrev with_pool : Globals → Option (Pool × Bool) → Option (Globals × Bool)
with_pool g none = none
with_pool g (some (p, b)) = some (record g { default_pool = some p }, b)

unfoldable pub submit_default : Task → Globals → Option (Globals × Bool)
unfolding default
submit_default t g = let (h, p) = default g in with_pool h (submit_now t p)

-- All steps of Stop, with nothing in between: four, and one for each task of the queue.
pub stop_steps : ℕ → Pool → Pool
stop_steps zero p = p
stop_steps (suc n) p = stop_steps n (or_stay p (stop p.stopper p))

abbrev pub stop_now : Pool → Pool
stop_now p = stop_steps (length p.task_queue + 4) p

abbrev stopped_pool : Option Pool → Option Pool
stopped_pool none = none
stopped_pool (some p) = some (stop_now p)

-- The second part is the pool that was given up, after its Stop.
unfoldable pub stop_default : Globals → Globals × Option Pool
unfolding stop_steps
stop_default g = (record g { default_pool = none }, stopped_pool g.default_pool)

unfoldable pub default_stats : Globals → Globals × Stats
unfolding default stats
default_stats g = let (h, p) = default g in (h, stats p)

stop_steps-suc :
    (n : ℕ) (p : Pool) {o : Option Pool}
    → stop p.stopper p ≡ o
    → stop_steps (suc n) p ≡ stop_steps n (or_stay p o)
unfolding stop_steps
stop_steps-suc n p e = ap (λ o. stop_steps n (or_stay p o)) e

returned_stays : (n : ℕ) (p : Pool) → p.stopper ≡ returned → stop_steps n p ≡ p
returned_stays zero p e = unfold stop_steps in refl
returned_stays (suc n) p e =
    stop_steps-suc n p {o = none} (unfold stop in ground arith) ∙ returned_stays n p e

drain_steps :
    (n : ℕ) (ts : List Task) (p : Pool)
    → p.task_queue ≡ ts
    → p.stopper ≡ draining
    → length ts < n
    → ((stop_steps n p).task_queue ≡ []) × ((stop_steps n p).stopped ≡ p.stopped)
drain_steps zero ts p q e h = absurd (omega arith)
drain_steps (suc n) [] p q e h =
    let last = record p { stopper = returned } in
    rw
      (stop_steps-suc n p {o = some last} (unfold stop in ground arith), returned_stays n last refl)
      (q, refl)
drain_steps (suc n) (t ∷ ts) p q e h =
    let next = record p { task_queue = ts; dropped = t ∷ p.dropped } in
    rw (stop_steps-suc n p {o = some next} (unfold stop in ground arith))
      (drain_steps n ts next refl e (omega arith))

stop_now_lem :
    (p : Pool)
    → p.stopped ≡ false
    → p.stopper ≡ not_called
    → ((stop_now p).task_queue ≡ []) × ((stop_now p).stopped ≡ true)
stop_now_lem p up idle =
    let n = length p.task_queue in
    let a = record p { stopped = true; stopper = cancelling } in
    let b = record a { cancelled = true; stopper = broadcasting } in
    let c = record b { dispatcher = wake b.dispatcher; stopper = draining } in
    let four : n + 4 ≡ suc (suc (suc (suc n))) = omega arith in
    rw
      (
        four,
        stop_steps-suc (suc (suc (suc n))) p {o = some a} (unfold stop in ground arith),
        stop_steps-suc (suc (suc n)) a {o = some b} (unfold stop in refl),
        stop_steps-suc (suc n) b {o = some c} (unfold stop in refl),
      )
      (drain_steps (suc n) p.task_queue c refl refl (omega arith))

-- The default pool is never a stopped one, and asking for it twice gives the same pool.
pub default_lem :
    (g : Globals) → ((default g).1.stopped ≡ false) × (default (default g).0 ≡ default g)
unfolding default new
default_lem g = elim (Option-cases g.default_pool) [
  | inl unset ↦ (ground arith, ground arith)
  | inr (p, set) ↦ (ground arith, ground arith)
]

-- Stopping the default pool, where one is running, empties its queue and marks it stopped, and the next use
-- makes a new pool of the size that was set.
pub default-stop_default :
    (g : Globals) (p : Pool)
    → g.default_pool ≡ some p
    → p.stopped ≡ false
    → p.stopper ≡ not_called
    → (q : Pool) × ((stop_default g).1 ≡ some q)
      × (q.task_queue ≡ [])
      × (q.stopped ≡ true)
      × ((default (stop_default g).0).1 ≡ new g.default_max_workers)
unfolding stop_default default
default-stop_default g p e up idle =
    (stop_now p, rw e refl, (stop_now_lem p up idle).0, (stop_now_lem p up idle).1, refl)
