-- ===== src/Executor.antt =====
-- lib/src/client/executor.rs: the ready queue and the workers. A step of a worker is what it does
-- between two points where another thread can get in. What a slot does in its slice is a parameter.
-- A waiting worker wakes only when it is notified, and `notify_one` wakes the first that waits.
pub mod Missed
pub mod Turns
pub mod Queue
pub mod Hands
pub mod Refines
pub mod Examples
pub mod Units
pub mod Stopping
use hyper4k.Prelude.{
  ℕ, zero, suc, ◌+◌, Bool, true, false, ◌==◌, if◌then◌else◌, Option, none, some, List, [], ◌∷◌,
  ◌++◌,
}
use hyper4k.Bridge.Ops.{slice}

-- Where a worker stands in `worker_loop`: at its head; before it takes the lock, also after a wait;
-- with the lock, between the test of `stopped` and the wait; in the wait; with a slot to run; with a
-- slot to put back; and after its return.
pub data Worker : Type 0 where
  looping locking about_to_wait waiting exited : Worker
  running requeueing : ℕ → Worker

-- `Shared` and `BridgeExecutor`: slots are known by numbers. `locked` is the lock of the queue, where
-- it is held across steps.
pub record Executor (S : Type 0) : Type 0 where
  pub slots : ℕ → S
  pub ready : List ℕ
  pub stopped : Bool
  pub locked : Bool
  pub workers : List Worker

abbrev pub worker_at : List Worker → ℕ → Option Worker
worker_at [] w = none
worker_at (x ∷ ws) zero = some x
worker_at (x ∷ ws) (suc w) = worker_at ws w

abbrev pub put : List Worker → ℕ → Worker → List Worker
put [] w x = []
put (y ∷ ws) zero x = x ∷ ws
put (y ∷ ws) (suc w) x = y ∷ put ws w x

-- The inner loop goes round again after a wait.
unfoldable pub notify_one : List Worker → List Worker
notify_one [] = []
notify_one (waiting ∷ ws) = locking ∷ ws
notify_one (looping ∷ ws) = looping ∷ notify_one ws
notify_one (locking ∷ ws) = locking ∷ notify_one ws
notify_one (about_to_wait ∷ ws) = about_to_wait ∷ notify_one ws
notify_one (exited ∷ ws) = exited ∷ notify_one ws
notify_one (running i ∷ ws) = running i ∷ notify_one ws
notify_one (requeueing i ∷ ws) = requeueing i ∷ notify_one ws

abbrev pub wake : Worker → Worker
wake waiting = locking
wake looping = looping
wake locking = locking
wake about_to_wait = about_to_wait
wake exited = exited
wake (running i) = running i
wake (requeueing i) = requeueing i

unfoldable pub notify_all : List Worker → List Worker
notify_all [] = []
notify_all (x ∷ ws) = wake x ∷ notify_all ws

abbrev pub spawn_workers : ℕ → List Worker
spawn_workers zero = []
spawn_workers (suc n) = looping ∷ spawn_workers n

unfoldable pub new_executor : {S : Type 0} → (ℕ → S) → ℕ → Executor S
new_executor slots threads = record {
  slots = slots;
  ready = [];
  stopped = false;
  locked = false;
  workers = spawn_workers threads;
}

-- What a thread does next; a step that needs the lock while it is held changes nothing.
pub data Op : Type 0 where
  schedules advances : ℕ → Op
  stops notifies_all : Op

module _ {S : Type 0} (run_slice : ℕ → S → S × Bool) where
  -- `push_back` and `notify_one`, under the lock.
  unfoldable pub push_back : Executor S → ℕ → Executor S
  push_back e i = record e { ready = e.ready ++ i ∷ []; workers = notify_one e.workers }

  unfoldable pub schedule : Executor S → ℕ → Executor S
  schedule e i = if e.locked then e else push_back e i

  unfoldable pub move : Executor S → ℕ → Worker → Executor S
  move e w x = record e { workers = put e.workers w x }

  -- The block that takes a slot off the queue.
  unfoldable pub pop_front : Executor S → ℕ → List ℕ → Executor S
  pop_front e w (i ∷ rest) = record (move e w (running i)) { ready = rest }
  pop_front e w [] =
      if e.stopped then move e w exited else record (move e w about_to_wait) { locked = true }

  unfoldable pub run_slot : Executor S → ℕ → ℕ → Executor S
  run_slot e w i =
      let (s, more) = run_slice slice (e.slots i) in
      let next = if more then requeueing i else looping in
      record (move e w next) { slots = λ j. if j == i then s else e.slots j }

  unfoldable pub advance_from : Executor S → ℕ → Option Worker → Executor S
  advance_from e w none = e
  advance_from e w (some looping) = move e w (if e.stopped then exited else locking)
  advance_from e w (some locking) = if e.locked then e else pop_front e w e.ready
  advance_from e w (some about_to_wait) = record (move e w waiting) { locked = false }
  advance_from e w (some waiting) = e
  advance_from e w (some (running i)) = run_slot e w i
  advance_from e w (some (requeueing i)) = if e.locked then e else push_back (move e w looping) i
  advance_from e w (some exited) = e

  -- One step of `worker_loop` by a worker.
  unfoldable pub advance : Executor S → ℕ → Executor S
  advance e w = advance_from e w (worker_at e.workers w)

  unfoldable pub step : Executor S → Op → Executor S
  step e (schedules i) = schedule e i
  step e (advances w) = advance e w
  step e stops = record e { stopped = true }
  step e notifies_all = record e { workers = notify_all e.workers }

  unfoldable pub run : Executor S → List Op → Executor S
  run e [] = e
  run e (op ∷ ops) = run (step e op) ops
