-- ===== src/WorkerPool/Tests.antt =====
-- Runs of the worker pool, and its theorems at concrete inputs.
use public_golibs.Common.{◌+◌, ◌≤◌, ◌≡◌, refl, false, List, [], ◌∷◌, arith, inr}
use public_golibs.Common.Int.{pos}
use public_golibs.WorkerPool.Pool.{new, selecting, dispatch, submit, enqueue, finish, wrap32}
use public_golibs.WorkerPool.Steps.{
  Action, dispatches, quits, stops, broadcasts, finishes, enqueues, submits, resizes, step, run,
  is_idle,
}
use public_golibs.WorkerPool.Balance.{Balanced, count, run-new-Balanced}
use public_golibs.WorkerPool.Progress.{CanStep, run-new-CanStep}
use public_golibs.WorkerPool.Bound.{run-new-active}
use public_golibs.WorkerPool.Idle.{is_idle_complete, Stranded, submit-Stranded}
use public_golibs.WorkerPool.Resizes.{resizes_start}
use public_golibs.WorkerPool.Default.{Globals}
use public_golibs.Common.{some}

-- Two tasks for one worker; the second waits until the first has ended.
abbrev busy : List Action
busy =
    submits 7
    ∷ enqueues 0
    ∷ submits 8
    ∷ enqueues 0
    ∷ dispatches
    ∷ dispatches
    ∷ dispatches
    ∷ dispatches
    ∷ dispatches
    ∷ dispatches
    ∷ dispatches
    ∷ dispatches
    ∷ []

busy_runs : (run busy (new (pos 1))).running ≡ 7 ∷ []
unfolding run step submit enqueue dispatch new wrap32
busy_runs = refl

run-new-Balanced_example : Balanced 8 (run busy (new (pos 1)))
run-new-Balanced_example = run-new-Balanced (pos 1) busy 8

run-new-CanStep_example : CanStep (run busy (new (pos 1)))
unfolding run step submit enqueue dispatch new wrap32
run-new-CanStep_example =
    run-new-CanStep (pos 1) busy (omega arith)
      (tt, (tt, (tt, (tt, (tt, (tt, (tt, (tt, (tt, (tt, (tt, (tt, tt)))))))))))) refl
      (inr (λ e. cc))

run-new-active_example : (run (resizes (pos 2) ∷ busy) (new (pos 1))).active_count ≤ 2
run-new-active_example =
    run-new-active 2 (pos 1) (resizes (pos 2) ∷ busy) (omega arith) (omega arith) (omega arith)

-- One task, run to its end.
abbrev whole : List Action
whole = submits 7 ∷ enqueues 0 ∷ dispatches ∷ dispatches ∷ dispatches ∷ dispatches ∷ finishes 0 ∷ []

is_idle_complete_example :
    let p = run whole (new (pos 1)) in count 7 p.accepted ≡ count 7 p.finished + count 7 p.dropped
unfolding run step submit enqueue dispatch finish new wrap32 is_idle
is_idle_complete_example = is_idle_complete (pos 1) whole 7 (omega arith) (omega arith) refl tt

submit-Stranded_example :
    let start = submits 7 ∷ stops ∷ stops ∷ stops ∷ stops ∷ enqueues 0 ∷ quits ∷ [] in
    let p = run (dispatches ∷ []) (run start (new (pos 1))) in
    ((run start (new (pos 1))).accepted ≡ 7 ∷ []) × Stranded 7 p × (is_idle p ≡ false)
submit-Stranded_example = submit-Stranded (pos 1) 7 (dispatches ∷ [])

-- One task runs, and the dispatcher sleeps with the other.
resizes_start_example :
    let p = run busy (new (pos 1)) in
    let q = run (resizes (pos 2) ∷ broadcasts ∷ dispatches ∷ dispatches ∷ dispatches ∷ []) p in
    (q.running ≡ 8 ∷ p.running)
    × (q.active_count ≡ p.active_count + 1)
    × (q.dispatcher ≡ selecting)
    × (q.finished ≡ p.finished)
unfolding run step submit enqueue dispatch new wrap32
resizes_start_example = resizes_start (pos 2) 8 (run busy (new (pos 1))) refl refl (omega arith)

-- A default pool of the size 4 with a task in its queue, on which Stop was not called.
abbrev in_use : Globals
in_use = record {
  default_pool = some (run (submits 7 ∷ enqueues 0 ∷ []) (new (pos 4)));
  default_max_workers = pos 4;
}
