-- ===== src/WorkerPool/Pool.antt =====
-- workerpool/pool.go: a pool of workers behind a queue. The goroutines are one dispatcher, the workers,
-- those that are inside Submit and Resize, and the one that is inside Stop. Each function below is what
-- one of them does between two points at which another may run.
use public_golibs.Common.{
  ℕ, zero, suc, ◌+◌, ◌-◌, ◌%◌, ◌^◌, Bool, true, false, Option, none, some, List, [], ◌∷◌, ◌++◌,
  if◌then◌else◌, length, ltb,
}
use public_golibs.Common.Int.{ℤ, pos, negsuc, pos_part, neg_part, leb_ℤ}

-- A task is known by a number.
abbrev pub Task : Type 0
Task = ℕ

-- Where the dispatcher stands, with the task that it holds. From `checking` to `waiting` or to the start
-- of a worker it holds the lock of the condition variable.
pub data Dispatcher : Type 0 where
  selecting exited : Dispatcher
  received checking about_to_wait waiting woken passing : Task → Dispatcher

-- Where the one call of Stop stands that found the pool running.
pub data Stopper : Type 0 where
  not_called cancelling broadcasting draining returned : Stopper

-- `submitting` are the tasks of calls of Submit behind the test of `stopped`, `broadcasts` the calls of
-- Resize that have stored the size and not yet woken the dispatcher. `accepted`, `finished` and `dropped`
-- record what became of the tasks.
pub record Pool : Type 0 where
  pub max_workers : ℤ
  pub active_count : ℕ
  pub task_queue : List Task
  pub cancelled : Bool
  pub stopped : Bool
  pub dispatcher : Dispatcher
  pub stopper : Stopper
  pub submitting : List Task
  pub broadcasts : ℕ
  pub running : List Task
  pub accepted : List Task
  pub finished : List Task
  pub dropped : List Task

-- int32(n)
unfoldable pub wrap32 : ℤ → ℤ
wrap32 a =
    let bits = (pos_part a % 2 ^ 32 + (2 ^ 32 - neg_part a % 2 ^ 32)) % 2 ^ 32 in
    if ltb bits (2 ^ 31) then pos bits else negsuc (2 ^ 32 - bits - 1)

abbrev pub at_least_one : ℤ → ℤ
at_least_one n = if leb_ℤ n (pos 0) then pos 1 else n

abbrev pub queue_capacity : ℕ
queue_capacity = 10000

unfoldable pub new : ℤ → Pool
unfolding wrap32
new n = record {
  max_workers = wrap32 (at_least_one n);
  active_count = 0;
  task_queue = [];
  cancelled = false;
  stopped = false;
  dispatcher = selecting;
  stopper = not_called;
  submitting = [];
  broadcasts = 0;
  running = [];
  accepted = [];
  finished = [];
  dropped = [];
}

-- The dispatcher returns with a task in its hands.
abbrev give_up : Task → Pool → Pool
give_up t p = record p { dispatcher = exited; dropped = t ∷ p.dropped }

abbrev receive : List Task → Pool → Option Pool
receive [] p = none
receive (t ∷ rest) p = some (record p { task_queue = rest; dispatcher = received t })

-- The dispatcher's next step; `none` where it sleeps, has nothing to receive, or has returned.
unfoldable pub dispatch : Dispatcher → Pool → Option Pool
dispatch selecting p = receive p.task_queue p
dispatch (received t) p =
    if p.stopped then some (give_up t p) else some (record p { dispatcher = checking t })
dispatch (checking t) p =
    if leb_ℤ p.max_workers (pos p.active_count)
    then some (record p { dispatcher = about_to_wait t })
    else some (record p { dispatcher = passing t })
dispatch (about_to_wait t) p = some (record p { dispatcher = waiting t })
dispatch (waiting t) p = none
dispatch (woken t) p =
    if p.stopped then some (give_up t p) else some (record p { dispatcher = checking t })
dispatch (passing t) p =
    if p.stopped
    then some (give_up t p)
    else some (record p {
      dispatcher = selecting;
      active_count = p.active_count + 1;
      running = t ∷ p.running;
    })
dispatch exited p = none

-- The dispatcher returns from its select because the context is done.
unfoldable pub quit : Dispatcher → Pool → Option Pool
quit selecting p = if p.cancelled then some (record p { dispatcher = exited }) else none
quit d p = none

-- A signal or a broadcast wakes a dispatcher that sleeps, and is lost on any other.
abbrev pub wake : Dispatcher → Dispatcher
wake (waiting t) = woken t
wake d = d

abbrev pub holds_lock : Dispatcher → Bool
holds_lock (checking t) = true
holds_lock (about_to_wait t) = true
holds_lock (passing t) = true
holds_lock d = false

-- The element at an index, and the others.
unfoldable pub pull : ℕ → List Task → Option (Task × List Task)
pull i [] = none
pull zero (x ∷ xs) = some (x, xs)
pull (suc i) (x ∷ xs) = elim (pull i xs) [ none ↦ none | some (y, ys) ↦ some (y, x ∷ ys) ]

abbrev finish_task : Option (Task × List Task) → Pool → Option Pool
finish_task none p = none
finish_task (some (t, rest)) p = some (record p {
  active_count = p.active_count - 1;
  running = rest;
  finished = t ∷ p.finished;
  dispatcher = wake p.dispatcher;
})

-- A worker whose task has ended, by a return or by a panic, gives its place back and signals.
unfoldable pub finish : ℕ → Pool → Option Pool
unfolding pull
finish i p = if holds_lock p.dispatcher then none else finish_task (pull i p.running) p

-- The first half of Submit: a pool that is stopped refuses.
unfoldable pub submit : Task → Pool → Option Pool
submit t p = if p.stopped then none else some (record p { submitting = t ∷ p.submitting })

abbrev enqueue_task : Option (Task × List Task) → Pool → Option Pool
enqueue_task none p = none
enqueue_task (some (t, rest)) p =
    some (record p {
      submitting = rest;
      task_queue = p.task_queue ++ t ∷ [];
      accepted = t ∷ p.accepted;
    })

-- The second half of Submit: the queue has room, and the call returns true.
unfoldable pub enqueue : ℕ → Pool → Option Pool
unfolding pull
enqueue i p =
    if ltb (length p.task_queue) queue_capacity then enqueue_task (pull i p.submitting) p else none

abbrev refuse_task : Option (Task × List Task) → Pool → Option Pool
refuse_task none p = none
refuse_task (some (t, rest)) p = some (record p { submitting = rest })

-- Or the context is done, and the call returns false.
unfoldable pub refuse : ℕ → Pool → Option Pool
unfolding pull
refuse i p = if p.cancelled then refuse_task (pull i p.submitting) p else none

unfoldable pub resize : ℤ → Pool → Option Pool
unfolding wrap32
resize n p =
    some (record p { max_workers = wrap32 (at_least_one n); broadcasts = p.broadcasts + 1 })

unfoldable pub broadcast : ℕ → Pool → Option Pool
broadcast zero p = none
broadcast (suc n) p = some (record p { broadcasts = n; dispatcher = wake p.dispatcher })

abbrev drain : List Task → Pool → Option Pool
drain [] p = some (record p { stopper = returned })
drain (t ∷ rest) p = some (record p { task_queue = rest; dropped = t ∷ p.dropped })

-- Stop's next step: the swap of `stopped`, the cancellation, the broadcast, and one task of the queue
-- after the other.
unfoldable pub stop : Stopper → Pool → Option Pool
stop not_called p =
    if p.stopped then none else some (record p { stopped = true; stopper = cancelling })
stop cancelling p = some (record p { cancelled = true; stopper = broadcasting })
stop broadcasting p = some (record p { dispatcher = wake p.dispatcher; stopper = draining })
stop draining p = drain p.task_queue p
stop returned p = none
