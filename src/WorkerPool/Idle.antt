-- ===== src/WorkerPool/Idle.antt =====
-- What IsIdle, and so WaitIdle, says of the accepted tasks, and what it does not.
use public_golibs.Common.{
  ℕ, zero, suc, ◌+◌, ◌≡◌, ◌≢◌, refl, true, false, some, List, [], ◌∷◌, ◌++◌, arith, length, inl,
  inr, Option-cases, All, &&_true, ◌==◌, ==_iff, sym, ◌∙◌,
}
use public_golibs.Common.Int.{ℤ}
use public_golibs.WorkerPool.Pool.{
  Task, Pool, Dispatcher, selecting, exited, received, Stopper, returned, new, dispatch, quit, pull,
  finish, submit, enqueue, refuse, resize, broadcast, stop, wake,
}
use public_golibs.WorkerPool.Steps.{
  Action, dispatches, quits, broadcasts, stops, finishes, enqueues, refuses, submits, resizes, step,
  run, run_invariant, is_idle,
}
use public_golibs.WorkerPool.Balance.{count, held, run-new-Balanced}
use public_golibs.WorkerPool.Progress.{FitsInt32, SmallSizes, run-new-Inv}

-- The dispatcher has no task in its hands.
abbrev pub EmptyHanded : Dispatcher → Type 0
EmptyHanded selecting = Unit {0}
EmptyHanded exited = Unit {0}
EmptyHanded d = ⊥

held-EmptyHanded : (a : Task) (d : Dispatcher) → EmptyHanded d → held a d ≡ 0
held-EmptyHanded a selecting e = refl
held-EmptyHanded a exited e = refl
held-EmptyHanded a (received t) e = absurd e
held-EmptyHanded a _ e = absurd e

count_zero : (a : Task) (ts : List Task) → length ts ≡ 0 → count a ts ≡ 0
count_zero a [] e = refl
count_zero a (t ∷ ts) e = absurd (omega arith)

-- Under every schedule, when the pool reports to be idle at a moment at which the dispatcher holds no
-- task, each accepted task has ended or was dropped.
pub is_idle_complete :
    (n : ℤ) (actions : List Action) (a : Task)
    → FitsInt32 n
    → All SmallSizes actions
    → is_idle (run actions (new n)) ≡ true
    → EmptyHanded (run actions (new n)).dispatcher
    → let p = run actions (new n) in count a p.accepted ≡ count a p.finished + count a p.dropped
unfolding is_idle
is_idle_complete n actions a f fs idle hands =
    let p = run actions (new n) in
    let v = run-new-Inv n actions f fs in
    let (none_active, none_queued) =
      &&_true (p.active_count == 0) (length p.task_queue == 0) idle in
    omega (
      arith,
      run-new-Balanced n actions a,
      held-EmptyHanded a p.dispatcher hands,
      count_zero a p.task_queue ((==_iff (length p.task_queue) 0).0 none_queued),
      count_zero a p.running (sym v.workers ∙ (==_iff p.active_count 0).0 none_active),
    )

-- The dispatcher and Stop have returned, and a task is at the head of the queue.
abbrev pub Stranded : Task → Pool → Type 0
Stranded t p =
    (p.dispatcher ≡ exited)
    × (p.stopper ≡ returned)
    × ((rest : List Task) × (p.task_queue ≡ t ∷ rest))

dispatch_exited : (p q : Pool) (d : Dispatcher) → d ≡ exited → dispatch d p ≢ some q
dispatch_exited p q d e h = let h' : dispatch exited p ≡ some q = rw e at h in unfold dispatch in cc

quit_exited : (p q : Pool) (d : Dispatcher) → d ≡ exited → quit d p ≢ some q
quit_exited p q d e h = let h' : quit exited p ≡ some q = rw e at h in unfold quit in cc

stop_returned : (p q : Pool) (s : Stopper) → s ≡ returned → stop s p ≢ some q
stop_returned p q s e h = let h' : stop returned p ≡ some q = rw e at h in unfold stop in cc

wake-Stranded :
    (t : Task) (p q : Pool) (n : ℕ) → Stranded t p → broadcast n p ≡ some q → Stranded t q
unfolding broadcast
wake-Stranded t p q zero s h = cc
wake-Stranded t p q (suc n) (d, s, (rest, l)) h =
    let e : record p { broadcasts = n; dispatcher = wake p.dispatcher } ≡ q = cc in
    rw (← e) (rw d refl, s, (rest, l))

enqueue-Stranded :
    (t : Task) (p q : Pool) (i : ℕ) → Stranded t p → enqueue i p ≡ some q → Stranded t q
unfolding enqueue
enqueue-Stranded t p q i (d, s, (rest, l)) h = elim (Option-cases (pull i p.submitting)) [
  | inl miss ↦ ground arith
  | inr (r, hit) ↦ (ground arith, ground arith, (rest ++ r.0 ∷ [], ground arith))
]

step-Stranded :
    (t : Task) (x : Action) (p q : Pool) → Stranded t p → step x p ≡ some q → Stranded t q
unfolding step
step-Stranded t dispatches p q s h = absurd (dispatch_exited p q p.dispatcher s.0 h)
step-Stranded t quits p q s h = absurd (quit_exited p q p.dispatcher s.0 h)
step-Stranded t broadcasts p q s h = wake-Stranded t p q p.broadcasts s h
step-Stranded t stops p q s h = absurd (stop_returned p q p.stopper s.1 h)
step-Stranded t (finishes i) p q s h = unfold finish in ground arith
step-Stranded t (enqueues i) p q s h = enqueue-Stranded t p q i s h
step-Stranded t (refuses i) p q s h = unfold refuse in ground arith
step-Stranded t (submits u) p q s h = unfold submit in ground arith
step-Stranded t (resizes n) p q s h = unfold resize in ground arith

Stranded-is_idle : (t : Task) (p : Pool) → Stranded t p → is_idle p ≡ false
unfolding is_idle
Stranded-is_idle t p s = ground arith

-- A call of Submit that read `stopped` just before Stop set it may still put its task into the queue after
-- Stop has emptied it, and is counted as accepted. When the dispatcher has then returned, whatever steps
-- follow leave the task at the head of the queue, with the dispatcher and Stop returned, and the pool does
-- not report to be idle.
pub submit-Stranded :
    (n : ℤ) (t : Task) (later : List Action)
    → let start = submits t ∷ stops ∷ stops ∷ stops ∷ stops ∷ enqueues 0 ∷ quits ∷ [] in
      let p = run later (run start (new n)) in
      ((run start (new n)).accepted ≡ t ∷ []) × Stranded t p × (is_idle p ≡ false)
unfolding run step submit stop enqueue quit new
submit-Stranded n t later =
    let stays =
      run_invariant (Stranded t) (λ x p q s h. step-Stranded t x p q s h) later _
        (refl, refl, ([], refl)) in
    (refl, stays, Stranded-is_idle t _ stays)
