-- ===== src/WorkerPool/Resizes.antt =====
-- workerpool/pool.go: a Resize while the dispatcher sleeps for want of room.
use public_golibs.Common.{ℕ, ◌+◌, ◌≡◌, refl, false, List, [], ◌∷◌, arith, sym, ◌∙◌}
use mathlib.Core.Path.{subst}
use native.Mathlib.Numerals.{unary_clauses}
use public_golibs.Common.Int.{ℤ, pos, ◌<ℤ◌, leb_ℤ}
use public_golibs.WorkerPool.Pool.{
  Task, Pool, selecting, waiting, woken, checking, passing, dispatch, resize, broadcast, wrap32,
  at_least_one,
}
use public_golibs.WorkerPool.Steps.{Action, dispatches, broadcasts, resizes, step, run}
use public_golibs.Common.{some}

full_false : (size : ℤ) (n : ℕ) → pos n <ℤ size → leb_ℤ size (pos n) ≡ false
full_false size n h = ground arith

-- The dispatcher has started the task since.
abbrev Started : Task → Pool → Pool → Type 0
Started t p q =
    (q.running ≡ t ∷ p.running)
    × (q.active_count ≡ p.active_count + 1)
    × (q.dispatcher ≡ selecting)
    × (q.finished ≡ p.finished)

run-step :
    (a : Action) (rest : List Action) (p q : Pool)
    → step a p ≡ some q
    → run (a ∷ rest) p ≡ run rest q
unfolding run
run-step a rest p q e = rw e refl

checking_passes :
    (t : Task) (p : Pool)
    → leb_ℤ p.max_workers (pos p.active_count) ≡ false
    → dispatch (checking t) p ≡ some (record p { dispatcher = passing t })
unfolding dispatch
checking_passes t p room = rw room refl

asleep_starts :
    (n : ℤ) (t : Task) (p : Pool)
    → leb_ℤ (wrap32 (at_least_one n)) (pos p.active_count) ≡ false
    → Started t p (
        run
          (resizes n ∷ broadcasts ∷ dispatches ∷ dispatches ∷ dispatches ∷ [])
          (record p { dispatcher = waiting t; stopped = false }))
unfolding step resize broadcast dispatch
asleep_starts n t p room =
    let asleep : Pool = record p { dispatcher = waiting t; stopped = false } in
    let resized : Pool = record asleep {
      max_workers = wrap32 (at_least_one n);
      broadcasts = p.broadcasts + 1;
    } in
    let awake : Pool = record resized { broadcasts = p.broadcasts; dispatcher = woken t } in
    let checks : Pool = record awake { dispatcher = checking t } in
    let passes : Pool = record checks { dispatcher = passing t } in
    let starts : Pool = record passes {
      dispatcher = selecting;
      active_count = p.active_count + 1;
      running = t ∷ p.running;
    } in
    let whole =
      run-step (resizes n) (broadcasts ∷ dispatches ∷ dispatches ∷ dispatches ∷ []) asleep resized
        refl
      ∙ run-step broadcasts (dispatches ∷ dispatches ∷ dispatches ∷ []) resized awake
          (simp unary_clauses refl)
      ∙ run-step dispatches (dispatches ∷ dispatches ∷ []) awake checks refl
      ∙ run-step dispatches (dispatches ∷ []) checks passes (checking_passes t checks room)
      ∙ run-step dispatches [] passes starts refl in
    let done : run [] starts ≡ starts = unfold run in refl in
    subst (Started t p) (sym (whole ∙ done)) (refl, refl, refl, refl)

-- A dispatcher that sleeps with a task because the pool is full is woken by a Resize to a size with room:
-- once the broadcast of Resize was sent, three steps of the dispatcher start the task, with no worker
-- having ended, unless the pool was stopped.
pub resizes_start :
    (n : ℤ) (t : Task) (p : Pool)
    → p.dispatcher ≡ waiting t
    → p.stopped ≡ false
    → pos p.active_count <ℤ wrap32 (at_least_one n)
    → let q = run (resizes n ∷ broadcasts ∷ dispatches ∷ dispatches ∷ dispatches ∷ []) p in
      (q.running ≡ t ∷ p.running)
      × (q.active_count ≡ p.active_count + 1)
      × (q.dispatcher ≡ selecting)
      × (q.finished ≡ p.finished)
resizes_start n t p d up room =
    let asleep : record p { dispatcher = waiting t; stopped = false } ≡ p =
      (λ i. record p { dispatcher = sym d i; stopped = sym up i }) in
    subst
      (λ s.
        Started t p (run (resizes n ∷ broadcasts ∷ dispatches ∷ dispatches ∷ dispatches ∷ []) s))
      asleep (asleep_starts n t p (full_false (wrap32 (at_least_one n)) p.active_count room))
