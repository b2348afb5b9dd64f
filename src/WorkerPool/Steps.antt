-- ===== src/WorkerPool/Steps.antt =====
-- workerpool/pool.go: interleavings of the goroutines, and what the pool reports of itself.
use public_golibs.Common.{
  ℕ, ◌≡◌, Bool, ◌&&◌, Option, none, some, List, [], ◌∷◌, length, ◌==◌, if◌then◌else◌, All,
  Option-cases, inl, inr,
}
use public_golibs.Common.Int.{ℤ, pos, ltb_ℤ, ◌-ℤ◌}
use public_golibs.WorkerPool.Pool.{
  Task, Pool, dispatch, quit, finish, submit, enqueue, refuse, resize, broadcast, stop,
}

-- The number says which worker finishes, or which call of Submit goes on.
pub data Action : Type 0 where
  dispatches quits broadcasts stops : Action
  finishes enqueues refuses : ℕ → Action
  submits : Task → Action
  resizes : ℤ → Action

-- `none` where the goroutine cannot take the step.
unfoldable pub step : Action → Pool → Option Pool
step dispatches p = dispatch p.dispatcher p
step quits p = quit p.dispatcher p
step broadcasts p = broadcast p.broadcasts p
step stops p = stop p.stopper p
step (finishes i) p = finish i p
step (enqueues i) p = enqueue i p
step (refuses i) p = refuse i p
step (submits t) p = submit t p
step (resizes n) p = resize n p

-- A schedule; a step that cannot be taken is passed over.
abbrev pub or_stay : Pool → Option Pool → Pool
or_stay p none = p
or_stay p (some q) = q

unfoldable pub run : List Action → Pool → Pool
run [] p = p
run (a ∷ rest) p = run rest (or_stay p (step a p))

-- An invariant of the steps is one of the schedules.
pub run_invariant {ℓ} :
    (P : Pool → Type ℓ)
    → ((a : Action) (p q : Pool) → P p → step a p ≡ some q → P q)
    → (actions : List Action) (p : Pool) → P p
    → P (run actions p)
unfolding run
run_invariant P keep [] p h = h
run_invariant P keep (a ∷ rest) p h = elim (Option-cases (step a p)) [
  | inl e ↦ rw e (run_invariant P keep rest p h)
  | inr (q, e) ↦ rw e (run_invariant P keep rest q (keep a p q h e))
]

-- So too where it is one of those steps only that the schedule makes.
pub run_invariant_for {ℓ κ} :
    (P : Pool → Type ℓ) (Q : Action → Type κ)
    → ((a : Action) (p q : Pool) → P p → Q a → step a p ≡ some q → P q)
    → (actions : List Action) (p : Pool) → All Q actions
    → P p
    → P (run actions p)
unfolding run
run_invariant_for P Q keep [] p qs h = h
run_invariant_for P Q keep (a ∷ rest) p qs h = elim (Option-cases (step a p)) [
  | inl e ↦ rw e (run_invariant_for P Q keep rest p qs.1 h)
  | inr (q, e) ↦ rw e (run_invariant_for P Q keep rest q qs.1 (keep a p q h qs.0 e))
]

unfoldable pub max_workers : Pool → ℤ
max_workers p = p.max_workers

unfoldable pub active_workers : Pool → ℕ
active_workers p = p.active_count

unfoldable pub idle_workers : Pool → ℤ
unfolding max_workers active_workers
idle_workers p =
    let idle = max_workers p -ℤ pos (active_workers p) in if ltb_ℤ idle (pos 0) then pos 0 else idle

unfoldable pub queue_size : Pool → ℕ
queue_size p = length p.task_queue

unfoldable pub is_idle : Pool → Bool
unfolding active_workers queue_size
is_idle p = active_workers p == 0 && queue_size p == 0

unfoldable pub is_stopped : Pool → Bool
is_stopped p = p.stopped

pub record Stats : Type 0 where
  pub max_workers : ℤ
  pub active_workers : ℕ
  pub idle_workers : ℤ
  pub queue_size : ℕ
  pub stopped : Bool

unfoldable pub stats : Pool → Stats
unfolding max_workers active_workers idle_workers queue_size is_stopped
stats p = record {
  max_workers = max_workers p;
  active_workers = active_workers p;
  idle_workers = idle_workers p;
  queue_size = queue_size p;
  stopped = is_stopped p;
}
