-- ===== src/WorkerPool/Bound.antt =====
-- How many workers run at a time.
use public_golibs.Common.{
  ℕ, zero, suc, ◌-◌, ◌≤◌, ◌<◌, ◌≡◌, refl, false, some, List, [], ◌∷◌, arith, inl, inr, Option-cases,
  All,
}
use public_golibs.Common.Int.{ℤ, pos, ◌≤ℤ◌}
use public_golibs.WorkerPool.Pool.{
  Task, Pool, Dispatcher, selecting, received, waiting, passing, Stopper, draining, new, dispatch,
  quit, wake, pull, finish, submit, enqueue, refuse, resize, broadcast, stop, wrap32, at_least_one,
  holds_lock,
}
use public_golibs.WorkerPool.Steps.{
  Action, dispatches, quits, broadcasts, stops, finishes, enqueues, refuses, submits, resizes, step,
  run, run_invariant_for,
}

-- Behind its test the dispatcher has room for one more worker.
abbrev HasRoom : ℕ → Dispatcher → ℕ → Type 0
HasRoom b (passing t) n = n < b
HasRoom b d n = Unit {0}

abbrev pub ResizesTo : ℕ → Action → Type 0
ResizesTo b (resizes n) = n ≤ℤ pos b
ResizesTo b a = Unit {0}

record Bounded (b : ℕ) (p : Pool) : Type 0 where
  limit : p.max_workers ≤ℤ pos b
  active : p.active_count ≤ b
  room : HasRoom b p.dispatcher p.active_count

wrap32_le : (b : ℕ) (n : ℤ) → 1 ≤ b → n ≤ℤ pos b → wrap32 (at_least_one n) ≤ℤ pos b
unfolding wrap32
wrap32_le b n h k = ground arith

wake-HasRoom : (b : ℕ) (d : Dispatcher) (n : ℕ) → HasRoom b d n → HasRoom b (wake d) n
wake-HasRoom b (waiting t) n r = tt
wake-HasRoom b (passing t) n r = r
wake-HasRoom b _ n r = tt

wake-unlocked-HasRoom :
    (b : ℕ) (d : Dispatcher) (n : ℕ) → holds_lock d ≡ false → HasRoom b (wake d) n
wake-unlocked-HasRoom b (passing t) n e = cc
wake-unlocked-HasRoom b _ n e = tt

module _ (b : ℕ) (p q : Pool) (v : Bounded b p) where
  receive-Bounded :
      (ts : List Task) → p.task_queue ≡ ts → dispatch selecting p ≡ some q → Bounded b q
  unfolding dispatch
  receive-Bounded [] e h = ground arith
  receive-Bounded (t ∷ ts) e h = ground arith

  dispatch-Bounded : (d : Dispatcher) → p.dispatcher ≡ d → dispatch d p ≡ some q → Bounded b q
  dispatch-Bounded selecting e h = receive-Bounded p.task_queue refl h
  dispatch-Bounded (received t) e h = unfold dispatch in ground arith
  dispatch-Bounded _ e h = unfold dispatch in ground arith

  quit-Bounded : (d : Dispatcher) → quit d p ≡ some q → Bounded b q
  unfolding quit
  quit-Bounded selecting h = ground arith
  quit-Bounded _ h = ground arith

  broadcast-Bounded : (n : ℕ) → broadcast n p ≡ some q → Bounded b q
  unfolding broadcast
  broadcast-Bounded zero h = cc
  broadcast-Bounded (suc n) h = ground (arith, wake-HasRoom b p.dispatcher p.active_count v.room)

  drain-Bounded : (ts : List Task) → p.task_queue ≡ ts → stop draining p ≡ some q → Bounded b q
  unfolding stop
  drain-Bounded [] t h = ground arith
  drain-Bounded (x ∷ ts) t h = ground arith

  stop-Bounded : (s : Stopper) → stop s p ≡ some q → Bounded b q
  stop-Bounded draining h = drain-Bounded p.task_queue refl h
  stop-Bounded _ h =
      unfold stop in ground (arith, wake-HasRoom b p.dispatcher p.active_count v.room)

  finish-Bounded : (i : ℕ) → finish i p ≡ some q → Bounded b q
  unfolding finish
  finish-Bounded i h = elim (Option-cases (pull i p.running)) [
    | inl miss ↦ ground arith
    | inr (r, hit) ↦ ground (arith, wake-unlocked-HasRoom b p.dispatcher (p.active_count - 1))
  ]

  step-Bounded : (x : Action) → 1 ≤ b → ResizesTo b x → step x p ≡ some q → Bounded b q
  unfolding step
  step-Bounded dispatches l f h = dispatch-Bounded p.dispatcher refl h
  step-Bounded quits l f h = quit-Bounded p.dispatcher h
  step-Bounded broadcasts l f h = broadcast-Bounded p.broadcasts h
  step-Bounded stops l f h = stop-Bounded p.stopper h
  step-Bounded (finishes i) l f h = finish-Bounded i h
  step-Bounded (enqueues i) l f h = unfold enqueue in ground arith
  step-Bounded (refuses i) l f h = unfold refuse in ground arith
  step-Bounded (submits t) l f h = unfold submit in ground arith
  step-Bounded (resizes n) l f h = unfold resize in ground (arith, wrap32_le b n l f)

-- Under every schedule there are at most as many active workers as the largest size that the pool was ever
-- given, or one if no size was positive.
pub run-new-active :
    (b : ℕ) (n : ℤ) (actions : List Action)
    → 1 ≤ b
    → n ≤ℤ pos b
    → All (ResizesTo b) actions
    → (run actions (new n)).active_count ≤ b
run-new-active b n actions l h fs =
    let start : Bounded b (new n) =
      unfold new in record { limit = wrap32_le b n l h; active = omega arith; room = tt } in
    (run_invariant_for (Bounded b) (ResizesTo b) (λ x p q v f h. step-Bounded b p q v x l f h)
      actions (new n) fs start).active
