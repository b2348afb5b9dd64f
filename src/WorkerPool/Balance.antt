-- ===== src/WorkerPool/Balance.antt =====
-- What becomes of the tasks that the pool accepts.
use public_golibs.Common.{
  ℕ, zero, suc, ◌+◌, ◌≡◌, refl, some, List, [], ◌∷◌, arith, count_by, count_by-append, ◌==◌, inl,
  inr, Option-cases,
}
use public_golibs.Common.Int.{ℤ}
use public_golibs.WorkerPool.Pool.{
  Task, Pool, Dispatcher, selecting, exited, received, checking, about_to_wait, waiting, woken,
  passing, Stopper, broadcasting, new, dispatch, quit, wake, pull, finish, submit, enqueue, refuse,
  resize, broadcast, stop,
}
use public_golibs.WorkerPool.Steps.{
  Action, dispatches, quits, broadcasts, stops, finishes, enqueues, refuses, submits, resizes, step,
  run, run_invariant,
}

-- How often a task stands in a list, and in the dispatcher's hands.
abbrev pub count : Task → List Task → ℕ
count a = count_by (λ x. x == a)

abbrev pub held : Task → Dispatcher → ℕ
held a selecting = 0
held a exited = 0
held a (received t) = count a (t ∷ [])
held a (checking t) = count a (t ∷ [])
held a (about_to_wait t) = count a (t ∷ [])
held a (waiting t) = count a (t ∷ [])
held a (woken t) = count a (t ∷ [])
held a (passing t) = count a (t ∷ [])

-- Each accepted task is in the queue, in the dispatcher's hands, running, finished, or dropped.
abbrev pub Balanced : Task → Pool → Type 0
Balanced a p =
    count a p.accepted
    ≡ count a p.task_queue
      + held a p.dispatcher
      + count a p.running
      + count a p.finished
      + count a p.dropped

pub count-pull :
    (a : Task) (i : ℕ) (xs : List Task) (y : Task) (ys : List Task)
    → pull i xs ≡ some (y, ys)
    → count a xs ≡ count a (y ∷ ys)
unfolding pull
count-pull a i [] y ys e = cc
count-pull a zero (x ∷ xs) y ys e = ground arith
count-pull a (suc i) (x ∷ xs) y ys e = elim (Option-cases (pull i xs)) [
  | inl miss ↦ ground arith
  | inr (r, hit) ↦ ground (arith, count-pull a i xs r.0 r.1 hit)
]

held-wake : (a : Task) (d : Dispatcher) → held a (wake d) ≡ held a d
held-wake a (waiting t) = refl
held-wake a _ = refl

module _ (a : Task) (p q : Pool) (b : Balanced a p) where
  receive-Balanced :
      (ts : List Task)
      → p.task_queue ≡ ts
      → p.dispatcher ≡ selecting
      → dispatch selecting p ≡ some q
      → Balanced a q
  unfolding dispatch
  receive-Balanced [] e d h = ground arith
  receive-Balanced (t ∷ ts) e d h = ground arith

  dispatch-Balanced : (d : Dispatcher) → p.dispatcher ≡ d → dispatch d p ≡ some q → Balanced a q
  dispatch-Balanced selecting e h = receive-Balanced p.task_queue refl e h
  dispatch-Balanced (received t) e h = unfold dispatch in ground arith
  dispatch-Balanced _ e h = unfold dispatch in ground arith

  quit-Balanced : (d : Dispatcher) → p.dispatcher ≡ d → quit d p ≡ some q → Balanced a q
  unfolding quit
  quit-Balanced selecting e h = ground arith
  quit-Balanced _ e h = ground arith

  broadcast-Balanced : (n : ℕ) → broadcast n p ≡ some q → Balanced a q
  unfolding broadcast
  broadcast-Balanced zero h = cc
  broadcast-Balanced (suc n) h = ground (arith, held-wake a p.dispatcher)

  stop-Balanced : (s : Stopper) → stop s p ≡ some q → Balanced a q
  unfolding stop
  stop-Balanced broadcasting h = ground (arith, held-wake a p.dispatcher)
  stop-Balanced _ h = ground arith

  finish-Balanced : (i : ℕ) → finish i p ≡ some q → Balanced a q
  unfolding finish
  finish-Balanced i h = elim (Option-cases (pull i p.running)) [
    | inl miss ↦ ground arith
    | inr (r, hit) ↦ ground (arith, held-wake a p.dispatcher, count-pull a i p.running r.0 r.1 hit)
  ]

  enqueue-Balanced : (i : ℕ) → enqueue i p ≡ some q → Balanced a q
  unfolding enqueue
  enqueue-Balanced i h = elim (Option-cases (pull i p.submitting)) [
    | inl miss ↦ ground arith
    | inr (r, hit) ↦ ground (arith, count_by-append (λ x. x == a) p.task_queue (r.0 ∷ []))
  ]

  refuse-Balanced : (i : ℕ) → refuse i p ≡ some q → Balanced a q
  unfolding refuse
  refuse-Balanced i h = ground arith

  step-Balanced : (x : Action) → step x p ≡ some q → Balanced a q
  unfolding step
  step-Balanced dispatches h = dispatch-Balanced p.dispatcher refl h
  step-Balanced quits h = quit-Balanced p.dispatcher refl h
  step-Balanced broadcasts h = broadcast-Balanced p.broadcasts h
  step-Balanced stops h = stop-Balanced p.stopper h
  step-Balanced (finishes i) h = finish-Balanced i h
  step-Balanced (enqueues i) h = enqueue-Balanced i h
  step-Balanced (refuses i) h = refuse-Balanced i h
  step-Balanced (submits t) h = unfold submit in ground arith
  step-Balanced (resizes n) h = unfold resize in ground arith

-- Under every schedule, each task for which Submit returned true is accounted for, as often as it was
-- accepted: it waits in the queue, the dispatcher holds it, a worker runs it, it has ended, or it was
-- dropped. No task is lost and none is run twice.
pub run-new-Balanced : (n : ℤ) (actions : List Action) (a : Task) → Balanced a (run actions (new n))
run-new-Balanced n actions a =
    run_invariant (Balanced a) (λ x p q b h. step-Balanced a p q b x h) actions (new n)
      (unfold new in refl)
