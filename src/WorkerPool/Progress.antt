-- ===== src/WorkerPool/Progress.antt =====
-- The pool does not get stuck: with work to do and no Stop, some goroutine can take a step.
use public_golibs.Common.{
  ℕ, zero, suc, ◌-◌, ◌^◌, ◌<◌, ◌≡◌, ◌≢◌, ◌⊎◌, refl, Bool, true, false, some, List, [], ◌∷◌, arith,
  length, inl, inr, Option-cases, Bool-cases, All, sym, ◌∙◌,
}
use mathlib.Core.Bool.{false≢true}
use public_golibs.Common.Int.{ℤ, pos, ◌≤ℤ◌, ◌<ℤ◌, leb_ℤ}
use public_golibs.WorkerPool.Pool.{
  Task, Pool, Dispatcher, selecting, exited, received, checking, about_to_wait, waiting, woken,
  passing, Stopper, not_called, draining, new, dispatch, quit, wake, pull, finish, submit, enqueue,
  refuse, resize, broadcast, stop, wrap32, at_least_one, holds_lock,
}
use public_golibs.WorkerPool.Steps.{
  Action, dispatches, quits, broadcasts, stops, finishes, enqueues, refuses, submits, resizes, step,
  run, run_invariant_for,
}

-- A dispatcher that has gone to wait, or is about to, has a worker to wait for.
abbrev pub Awaits : Dispatcher → ℕ → Type 0
Awaits (about_to_wait t) n = 0 < n
Awaits (waiting t) n = 0 < n
Awaits d n = Unit {0}

-- Only a stopped pool has lost its dispatcher.
abbrev pub Alive : Dispatcher → Bool → Type 0
Alive exited stopped = stopped ≡ true
Alive d stopped = Unit {0}

pub record Inv (p : Pool) : Type 0 where
  pub workers : p.active_count ≡ length p.running
  pub sized : pos 1 ≤ℤ p.max_workers
  pub awaits : Awaits p.dispatcher p.active_count
  pub alive : Alive p.dispatcher p.stopped
  pub calm : (p.stopped ≡ true) ⊎ ((p.cancelled ≡ false) × (p.stopper ≡ not_called))

-- Sizes that an int32 can hold.
abbrev pub FitsInt32 : ℤ → Type 0
FitsInt32 n = n <ℤ pos (2 ^ 31)

abbrev pub SmallSizes : Action → Type 0
SmallSizes (resizes n) = FitsInt32 n
SmallSizes a = Unit {0}

wrap32_sized : (n : ℤ) → FitsInt32 n → pos 1 ≤ℤ wrap32 (at_least_one n)
unfolding wrap32
wrap32_sized n h = ground arith

length-pull :
    (i : ℕ) (xs : List Task) (y : Task) (ys : List Task)
    → pull i xs ≡ some (y, ys)
    → length xs ≡ suc (length ys)
unfolding pull
length-pull i [] y ys e = cc
length-pull zero (x ∷ xs) y ys e = ground arith
length-pull (suc i) (x ∷ xs) y ys e = elim (Option-cases (pull i xs)) [
  | inl miss ↦ ground arith
  | inr (r, hit) ↦ ground (arith, length-pull i xs r.0 r.1 hit)
]

wake-Awaits : (d : Dispatcher) (n : ℕ) → Awaits d n → Awaits (wake d) n
wake-Awaits (waiting t) n a = tt
wake-Awaits (about_to_wait t) n a = a
wake-Awaits _ n a = tt

-- Without the lock the dispatcher is not about to wait, and woken it does not wait.
wake-unlocked-Awaits : (d : Dispatcher) (n : ℕ) → holds_lock d ≡ false → Awaits (wake d) n
wake-unlocked-Awaits (about_to_wait t) n e = cc
wake-unlocked-Awaits _ n e = tt

wake-Alive : (d : Dispatcher) (b : Bool) → Alive d b → Alive (wake d) b
wake-Alive (waiting t) b a = tt
wake-Alive exited b a = a
wake-Alive _ b a = tt

module _ (p q : Pool) (v : Inv p) where
  receive-Inv : (ts : List Task) → p.task_queue ≡ ts → dispatch selecting p ≡ some q → Inv q
  unfolding dispatch
  receive-Inv [] e h = ground arith
  receive-Inv (t ∷ ts) e h = ground arith

  dispatch-Inv : (d : Dispatcher) → p.dispatcher ≡ d → dispatch d p ≡ some q → Inv q
  dispatch-Inv selecting e h = receive-Inv p.task_queue refl h
  dispatch-Inv (received t) e h = unfold dispatch in ground arith
  dispatch-Inv _ e h = unfold dispatch in ground arith

  quit-Inv : (d : Dispatcher) → p.dispatcher ≡ d → quit d p ≡ some q → Inv q
  unfolding quit
  quit-Inv selecting e h = ground arith
  quit-Inv _ e h = ground arith

  broadcast-Inv : (n : ℕ) → broadcast n p ≡ some q → Inv q
  unfolding broadcast
  broadcast-Inv zero h = cc
  broadcast-Inv (suc n) h = ground (
    arith,
    wake-Awaits p.dispatcher p.active_count v.awaits,
    wake-Alive p.dispatcher p.stopped v.alive,
  )

  drain-Inv :
      (ts : List Task) → p.task_queue ≡ ts → p.stopper ≡ draining → stop draining p ≡ some q → Inv q
  unfolding stop
  drain-Inv [] t e h = ground arith
  drain-Inv (x ∷ ts) t e h = ground arith

  stop-Inv : (s : Stopper) → p.stopper ≡ s → stop s p ≡ some q → Inv q
  stop-Inv draining e h = drain-Inv p.task_queue refl e h
  stop-Inv _ e h =
      unfold stop in
      ground (
        arith,
        wake-Awaits p.dispatcher p.active_count v.awaits,
        wake-Alive p.dispatcher p.stopped v.alive,
      )

  finish-Inv : (i : ℕ) → finish i p ≡ some q → Inv q
  unfolding finish
  finish-Inv i h = elim (Option-cases (pull i p.running)) [
    | inl miss ↦ ground arith
    | inr (r, hit) ↦ ground (
      arith,
      wake-unlocked-Awaits p.dispatcher (p.active_count - 1),
      wake-Alive p.dispatcher p.stopped v.alive,
      length-pull i p.running r.0 r.1 hit,
    )
  ]

  resize-Inv : (n : ℤ) → FitsInt32 n → resize n p ≡ some q → Inv q
  unfolding resize
  resize-Inv n f h = ground (arith, wrap32_sized n f)

  step-Inv : (x : Action) → SmallSizes x → step x p ≡ some q → Inv q
  unfolding step
  step-Inv dispatches f h = dispatch-Inv p.dispatcher refl h
  step-Inv quits f h = quit-Inv p.dispatcher refl h
  step-Inv broadcasts f h = broadcast-Inv p.broadcasts h
  step-Inv stops f h = stop-Inv p.stopper refl h
  step-Inv (finishes i) f h = finish-Inv i h
  step-Inv (enqueues i) f h = unfold enqueue in ground arith
  step-Inv (refuses i) f h = unfold refuse in ground arith
  step-Inv (submits t) f h = unfold submit in ground arith
  step-Inv (resizes n) f h = resize-Inv n f h

new-Inv : (n : ℤ) → FitsInt32 n → Inv (new n)
unfolding new
new-Inv n f = record {
  workers = refl;
  sized = wrap32_sized n f;
  awaits = tt;
  alive = tt;
  calm = inr (refl, refl);
}

pub run-new-Inv :
    (n : ℤ) (actions : List Action)
    → FitsInt32 n
    → All SmallSizes actions
    → Inv (run actions (new n))
run-new-Inv n actions f fs =
    run_invariant_for Inv SmallSizes (λ x p q v s h. step-Inv p q v x s h) actions (new n) fs
      (new-Inv n f)

-- Some task waits in the queue or in the dispatcher's hands.
abbrev pub HasWork : Pool → Type 0
HasWork p = (p.task_queue ≢ []) ⊎ (p.dispatcher ≢ selecting)

-- The dispatcher can go on, or it can as soon as the latest worker has ended, which that worker can.
abbrev pub CanStep : Pool → Type 0
CanStep p =
    (q : Pool) × ((step dispatches p ≡ some q)
      ⊎ ((step (finishes 0) p ≡ some q) × ((r : Pool) × (step dispatches q ≡ some r))))

module _ (p : Pool) (v : Inv p) (up : p.stopped ≡ false) where
  select-CanStep :
      (ts : List Task) → p.task_queue ≡ ts → ts ≢ [] → (q : Pool) × (dispatch selecting p ≡ some q)
  unfolding dispatch
  select-CanStep [] e w = absurd (w refl)
  select-CanStep (t ∷ ts) e w = rw e (_, refl)

  finish-CanStep :
      (t : Task) (ts : List Task)
      → p.running ≡ ts
      → 0 < length ts
      → p.dispatcher ≡ waiting t
      → (q : Pool) × ((finish 0 p ≡ some q) × ((r : Pool) × (dispatch q.dispatcher q ≡ some r)))
  unfolding finish
  finish-CanStep t [] e w d = absurd (omega arith)
  finish-CanStep t (u ∷ ts) e w d =
      let q : Pool = record p {
        active_count = p.active_count - 1;
        running = ts;
        finished = u ∷ p.finished;
        dispatcher = woken t;
      } in
      let ends : finish 0 p ≡ some q = simp (e, d) refl in
      (q, (ends, (record q { dispatcher = checking t }, unfold dispatch in simp (up) refl)))

  check-CanStep : (t : Task) → (q : Pool) × (dispatch (checking t) p ≡ some q)
  unfolding dispatch
  check-CanStep t = elim (Bool-cases (leb_ℤ p.max_workers (pos p.active_count))) [
    | inl full ↦ rw full (_, refl)
    | inr free ↦ rw free (_, refl)
  ]

  go-CanStep :
      (d : Dispatcher)
      → p.dispatcher ≡ d
      → HasWork p
      → (q : Pool) × ((dispatch d p ≡ some q)
          ⊎ ((finish 0 p ≡ some q) × ((r : Pool) × (dispatch q.dispatcher q ≡ some r))))
  go-CanStep selecting e (inl w) = let (q, h) = select-CanStep p.task_queue refl w in (q, inl h)
  go-CanStep selecting e (inr w) = absurd (w e)
  go-CanStep exited e w =
      let lost : Alive exited p.stopped = rw e at v.alive in absurd (false≢true (sym up ∙ lost))
  go-CanStep (received t) e w = unfold dispatch in rw up (_, inl refl)
  go-CanStep (checking t) e w = let (q, h) = check-CanStep t in (q, inl h)
  go-CanStep (about_to_wait t) e w = unfold dispatch in (_, inl refl)
  go-CanStep (waiting t) e w =
      let busy : Awaits (waiting t) p.active_count = rw e at v.awaits in
      let (q, h) = finish-CanStep t p.running refl (rw (← v.workers) busy) e in (q, inr h)
  go-CanStep (woken t) e w = unfold dispatch in rw up (_, inl refl)
  go-CanStep (passing t) e w = unfold dispatch in rw up (_, inl refl)

-- A pool that was made with a size that an int32 holds, and resized to such sizes only, never gets into a
-- deadlock, whatever the schedule: as long as Stop was not called and some task is in the queue or in the
-- dispatcher's hands, the dispatcher can take a step, or a worker is running at whose end the dispatcher
-- can take one. (Nothing makes a worker end.)
pub run-new-CanStep :
    (n : ℤ) (actions : List Action)
    → FitsInt32 n
    → All SmallSizes actions
    → (run actions (new n)).stopped ≡ false
    → HasWork (run actions (new n))
    → CanStep (run actions (new n))
run-new-CanStep n actions f fs up w =
    let p = run actions (new n) in
    unfold step in go-CanStep p (run-new-Inv n actions f fs) up p.dispatcher refl w
