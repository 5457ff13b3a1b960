-- ===== src/Executor/Units.antt =====
-- lib/src/client/executor.rs: what becomes of the work that is scheduled.
use hyper4k.Prelude.{
  ℕ, zero, suc, ◌+◌, ◌≡◌, refl, ap, Bool, true, false, if◌then◌else◌, ◌==◌, Option, none, some,
  List, [], ◌∷◌, ◌++◌, arith, if_cases,
}
use hyper4k.Bridge.Ops.{slice}
use hyper4k.Executor.{
  Worker, looping, locking, about_to_wait, waiting, exited, running, requeueing, Executor,
  worker_at, put, notify_one, notify_all, wake, push_back, schedule, move, pop_front, run_slot,
  advance_from, advance, Op, schedules, advances, stops, notifies_all, step, run,
}

-- 1 if it is the slot.
abbrev pub one : ℕ → ℕ → ℕ
one i j = if j == i then 1 else 0

abbrev pub count : ℕ → List ℕ → ℕ
count i [] = 0
count i (j ∷ ready) = one i j + count i ready

abbrev pub held_by : ℕ → Worker → ℕ
held_by i (running j) = one i j
held_by i (requeueing j) = one i j
held_by i _ = 0

abbrev pub held : ℕ → List Worker → ℕ
held i [] = 0
held i (w ∷ ws) = held_by i w + held i ws

-- How often the slot `i` stands in the queue or is with a worker.
abbrev pub units : {S : Type 0} → ℕ → Executor S → ℕ
units i e = count i e.ready + held i e.workers

count-push : (i j : ℕ) (ready : List ℕ) → count i (ready ++ j ∷ []) ≡ count i ready + one i j
count-push i j [] = omega arith
count-push i j (k ∷ ready) = omega (arith, count-push i j ready)

held-put :
    (i : ℕ) (ws : List Worker) (v : ℕ) (x y : Worker)
    → worker_at ws v ≡ some y
    → held i (put ws v x) + held_by i y ≡ held i ws + held_by i x
held-put i [] v x y e = cc
held-put i (z ∷ ws) zero x y e =
    let k = ap (held_by i) (let same : z ≡ y = cc in same) in omega (arith, k)
held-put i (z ∷ ws) (suc v) x y e = omega (arith, held-put i ws v x y e)

held-notify_one : (i : ℕ) (ws : List Worker) → held i (notify_one ws) ≡ held i ws
unfolding notify_one
held-notify_one i [] = refl
held-notify_one i (waiting ∷ ws) = refl
held-notify_one i (looping ∷ ws) = omega (arith, held-notify_one i ws)
held-notify_one i (locking ∷ ws) = omega (arith, held-notify_one i ws)
held-notify_one i (about_to_wait ∷ ws) = omega (arith, held-notify_one i ws)
held-notify_one i (exited ∷ ws) = omega (arith, held-notify_one i ws)
held-notify_one i (running j ∷ ws) = omega (arith, held-notify_one i ws)
held-notify_one i (requeueing j ∷ ws) = omega (arith, held-notify_one i ws)

held_by-wake : (i : ℕ) (x : Worker) → held_by i (wake x) ≡ held_by i x
held_by-wake i waiting = refl
held_by-wake i looping = refl
held_by-wake i locking = refl
held_by-wake i about_to_wait = refl
held_by-wake i exited = refl
held_by-wake i (running j) = refl
held_by-wake i (requeueing j) = refl

held-notify_all : (i : ℕ) (ws : List Worker) → held i (notify_all ws) ≡ held i ws
unfolding notify_all
held-notify_all i [] = refl
held-notify_all i (x ∷ ws) = omega (arith, held_by-wake i x, held-notify_all i ws)

module _ {S : Type 0} (run_slice : ℕ → S → S × Bool) where
  -- What a step adds for the slot `i`.
  abbrev pub added : ℕ → Executor S → Op → ℕ
  added i e (schedules j) = if e.locked then 0 else one i j
  added i e _ = 0

  abbrev pub retired_from : ℕ → Executor S → Option Worker → ℕ
  retired_from i e (some (running j)) = if (run_slice slice (e.slots j)).1 then 0 else one i j
  retired_from i e _ = 0

  -- What a step ends: a slice that has no more to do.
  abbrev pub retired : ℕ → Executor S → Op → ℕ
  retired i e (advances v) = retired_from i e (worker_at e.workers v)
  retired i e _ = 0

  abbrev pub all_added : ℕ → Executor S → List Op → ℕ
  all_added i e [] = 0
  all_added i e (op ∷ ops) = added i e op + all_added i (step run_slice e op) ops

  abbrev pub all_retired : ℕ → Executor S → List Op → ℕ
  all_retired i e [] = 0
  all_retired i e (op ∷ ops) = retired i e op + all_retired i (step run_slice e op) ops

  moved :
      (i : ℕ) (e : Executor S) (v : ℕ) (x y : Worker)
      → worker_at e.workers v ≡ some y
      → held_by i x ≡ held_by i y
      → units i (move run_slice e v x) ≡ units i e
  unfolding move
  moved i e v x y at h = omega (arith, held-put i e.workers v x y at)

  run_slot-units :
      (i : ℕ) (e : Executor S) (v j : ℕ)
      → worker_at e.workers v ≡ some (running j)
      → units i (run_slot run_slice e v j) + retired_from i e (some (running j)) ≡ units i e
  unfolding run_slot move
  run_slot-units i e v j at = go (run_slice slice (e.slots j)).1
    where
      go :
          (more : Bool)
          → count i e.ready
              + held i (put e.workers v (if more then requeueing j else looping))
              + (if more then 0 else one i j)
            ≡ units i e
      go true = omega (arith, held-put i e.workers v (requeueing j) (running j) at)
      go false = omega (arith, held-put i e.workers v looping (running j) at)

  pop_front-units :
      (i : ℕ) (e : Executor S) (v : ℕ) (ready : List ℕ)
      → e.ready ≡ ready
      → worker_at e.workers v ≡ some locking
      → units i (pop_front run_slice e v ready) ≡ units i e
  unfolding pop_front move
  pop_front-units i e v (j ∷ rest) r at =
      omega (arith, ap (count i) r, held-put i e.workers v (running j) locking at)
  pop_front-units i e v [] r at =
      if_cases (λ (f : Executor S). units i f ≡ units i e) e.stopped
        (λ _. moved i e v exited locking at refl) (λ _. moved i e v about_to_wait locking at refl)

  push_back-units :
      (i : ℕ) (e : Executor S) (j : ℕ) → units i (push_back run_slice e j) ≡ units i e + one i j
  unfolding push_back
  push_back-units i e j = omega (arith, count-push i j e.ready, held-notify_one i e.workers)

  put_down :
      (i : ℕ) (e : Executor S) (v j : ℕ)
      → worker_at e.workers v ≡ some (requeueing j)
      → units i (move run_slice e v looping) + one i j ≡ units i e
  unfolding move
  put_down i e v j at = omega (arith, held-put i e.workers v looping (requeueing j) at)

  advance_from-units :
      (i : ℕ) (e : Executor S) (v : ℕ) (x : Option Worker)
      → worker_at e.workers v ≡ x
      → units i (advance_from run_slice e v x) + retired_from i e x ≡ units i e
  unfolding advance_from
  advance_from-units i e v none at = omega arith
  advance_from-units i e v (some exited) at = omega arith
  advance_from-units i e v (some waiting) at = omega arith
  advance_from-units i e v (some about_to_wait) at =
      omega (arith, moved i e v waiting about_to_wait at refl)
  advance_from-units i e v (some looping) at =
      if_cases (λ x. units i (move run_slice e v x) + 0 ≡ units i e) e.stopped
        (λ _. omega (arith, moved i e v exited looping at refl))
        (λ _. omega (arith, moved i e v locking looping at refl))
  advance_from-units i e v (some (running j)) at = run_slot-units i e v j at
  advance_from-units i e v (some (requeueing j)) at =
      if_cases (λ (f : Executor S). units i f + 0 ≡ units i e) e.locked (λ _. omega arith)
        (λ _. omega (arith, push_back-units i (move run_slice e v looping) j, put_down i e v j at))
  advance_from-units i e v (some locking) at =
      if_cases (λ (f : Executor S). units i f + 0 ≡ units i e) e.locked (λ _. omega arith)
        (λ _. omega (arith, pop_front-units i e v e.ready refl at))

  step-units :
      (i : ℕ) (e : Executor S) (op : Op)
      → units i (step run_slice e op) + retired i e op ≡ units i e + added i e op
  unfolding step schedule advance
  step-units i e (schedules j) = go e.locked
    where
      go :
          (held_now : Bool)
          → units i (if held_now then e else push_back run_slice e j) + 0
            ≡ units i e + (if held_now then 0 else one i j)
      go true = omega arith
      go false = omega (arith, push_back-units i e j)
  step-units i e (advances v) = omega (arith, advance_from-units i e v (worker_at e.workers v) refl)
  step-units i e stops = omega arith
  step-units i e notifies_all = omega (arith, held-notify_all i e.workers)

  -- No work is lost or done twice over: what was scheduled of a slot, and what stood in the queue
  -- before, is in the queue, with a worker, or ended by a slice that had no more to do.
  pub run-units :
      (i : ℕ) (e : Executor S) (ops : List Op)
      → units i (run run_slice e ops) + all_retired i e ops ≡ units i e + all_added i e ops
  unfolding run
  run-units i e [] = omega arith
  run-units i e (op ∷ ops) = omega (arith, step-units i e op, run-units i (step run_slice e op) ops)
