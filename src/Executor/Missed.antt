-- ===== src/Executor/Missed.antt =====
-- lib/src/client/executor.rs: `shutdown` stores `stopped` and notifies without the lock of the queue.
use hyper4k.Prelude.{
  ℕ, zero, suc, ◌≡◌, ◌≢◌, refl, sym, ap, ◌∙◌, subst, Bool, true, false, Option, none, some, List,
  [], ◌∷◌, map, All, if_cases,
}
use hyper4k.Executor.{
  Worker, looping, locking, about_to_wait, waiting, exited, running, requeueing, Executor,
  worker_at, put, notify_all, wake, move, pop_front, advance_from, advance, advances, stops,
  notifies_all, step, run,
}

-- A worker without a slot.
abbrev pub IsFree : Worker → Type 0
IsFree (running i) = ⊥
IsFree (requeueing i) = ⊥
IsFree _ = Unit {0}

-- Stopped with an empty queue, no worker has a slot, and `w` waits.
record Stuck {S : Type 0} (w : ℕ) (e : Executor S) : Type 0 where
  empty : e.ready ≡ []
  told : e.stopped ≡ true
  free : All IsFree e.workers
  waits : worker_at e.workers w ≡ some waiting

put_other :
    (ws : List Worker) (v w : ℕ) (x y : Worker) {z : Worker}
    → worker_at ws v ≡ some y
    → worker_at ws w ≡ some z
    → y ≢ z
    → worker_at (put ws v x) w ≡ some z
put_other [] v w x y e f n = f
put_other (u ∷ ws) zero zero x y {z} e f n =
    absurd (n ((let a : u ≡ y = cc in sym a) ∙ (let b : u ≡ z = cc in b)))
put_other (u ∷ ws) zero (suc w) x y e f n = f
put_other (u ∷ ws) (suc v) zero x y e f n = f
put_other (u ∷ ws) (suc v) (suc w) x y e f n = put_other ws v w x y e f n

put_same :
    (ws : List Worker) (w : ℕ) (x y : Worker)
    → worker_at ws w ≡ some y
    → worker_at (put ws w x) w ≡ some x
put_same [] w x y e = cc
put_same (u ∷ ws) zero x y e = refl
put_same (u ∷ ws) (suc w) x y e = put_same ws w x y e

All-put :
    (ws : List Worker) (v : ℕ) (x : Worker) → IsFree x → All IsFree ws → All IsFree (put ws v x)
All-put [] v x h a = tt
All-put (y ∷ ws) zero x h a = (h, a.1)
All-put (y ∷ ws) (suc v) x h a = (a.0, All-put ws v x h a.1)

IsFree-worker_at :
    (ws : List Worker) (v : ℕ) (x : Worker) → All IsFree ws → worker_at ws v ≡ some x → IsFree x
IsFree-worker_at [] v x a e = cc
IsFree-worker_at (z ∷ ws) zero x a e = subst IsFree (let same : z ≡ x = cc in same) a.0
IsFree-worker_at (z ∷ ws) (suc v) x a e = IsFree-worker_at ws v x a.1 e

notify_all-IsFree : (ws : List Worker) → All IsFree ws → All IsFree (notify_all ws)
unfolding notify_all
notify_all-IsFree [] a = tt
notify_all-IsFree (waiting ∷ ws) a = (tt, notify_all-IsFree ws a.1)
notify_all-IsFree (looping ∷ ws) a = (tt, notify_all-IsFree ws a.1)
notify_all-IsFree (locking ∷ ws) a = (tt, notify_all-IsFree ws a.1)
notify_all-IsFree (about_to_wait ∷ ws) a = (tt, notify_all-IsFree ws a.1)
notify_all-IsFree (exited ∷ ws) a = (tt, notify_all-IsFree ws a.1)
notify_all-IsFree (running i ∷ ws) a = absurd a.0
notify_all-IsFree (requeueing i ∷ ws) a = absurd a.0

worker_at-notify_all :
    (ws : List Worker) (w : ℕ)
    → worker_at ws w ≡ some about_to_wait
    → worker_at (notify_all ws) w ≡ some about_to_wait
unfolding notify_all
worker_at-notify_all [] w e = cc
worker_at-notify_all (x ∷ ws) zero e =
    ap (λ y. some (wake y)) (let same : x ≡ about_to_wait = cc in same)
worker_at-notify_all (x ∷ ws) (suc w) e = worker_at-notify_all ws w e

module _ {S : Type 0} (run_slice : ℕ → S → S × Bool) where
  moved :
      (e f : Executor S) (v w : ℕ) (x y : Worker)
      → Stuck w e
      → worker_at e.workers v ≡ some y
      → y ≢ waiting
      → IsFree x
      → f.ready ≡ e.ready
      → f.stopped ≡ e.stopped
      → f.workers ≡ put e.workers v x
      → Stuck w f
  moved e f v w x y k at n free r s ws = record {
    empty = r ∙ k.empty;
    told = s ∙ k.told;
    free = subst (All IsFree) (sym ws) (All-put e.workers v x free k.free);
    waits = ap (λ l. worker_at l w) ws ∙ put_other e.workers v w x y at k.waits n;
  }

  pop_front-Stuck :
      (e : Executor S) (v w : ℕ)
      → Stuck w e
      → worker_at e.workers v ≡ some locking
      → Stuck w (pop_front run_slice e v [])
  unfolding pop_front move
  pop_front-Stuck e v w k at =
      if_cases (Stuck w) e.stopped
        (λ _.
          moved e (move run_slice e v exited) v w exited locking k at (λ c. cc) tt refl refl refl)
        (λ _.
          moved e (record (move run_slice e v about_to_wait) { locked = true }) v w about_to_wait
            locking k at (λ c. cc) tt refl refl refl)

  advance_from-Stuck :
      (e : Executor S) (v w : ℕ) (x : Option Worker)
      → Stuck w e
      → worker_at e.workers v ≡ x
      → Stuck w (advance_from run_slice e v x)
  unfolding advance_from move
  advance_from-Stuck e v w none k at = k
  advance_from-Stuck e v w (some exited) k at = k
  advance_from-Stuck e v w (some waiting) k at = k
  advance_from-Stuck e v w (some looping) k at =
      if_cases (λ x. Stuck w (move run_slice e v x)) e.stopped
        (λ _.
          moved e (move run_slice e v exited) v w exited looping k at (λ c. cc) tt refl refl refl)
        (λ _.
          moved e (move run_slice e v locking) v w locking looping k at (λ c. cc) tt refl refl refl)
  advance_from-Stuck e v w (some about_to_wait) k at =
      moved e (record (move run_slice e v waiting) { locked = false }) v w waiting about_to_wait k
        at (λ c. cc) tt refl refl refl
  advance_from-Stuck e v w (some (running j)) k at =
      absurd (IsFree-worker_at e.workers v (running j) k.free at)
  advance_from-Stuck e v w (some (requeueing j)) k at =
      absurd (IsFree-worker_at e.workers v (requeueing j) k.free at)
  advance_from-Stuck e v w (some locking) k at =
      if_cases (Stuck w) e.locked (λ _. k)
        (λ _.
          subst (λ r. Stuck w (pop_front run_slice e v r)) (sym k.empty)
            (pop_front-Stuck e v w k at))

  run-Stuck :
      (e : Executor S) (w : ℕ) (vs : List ℕ)
      → Stuck w e
      → Stuck w (run run_slice e (map advances vs))
  unfolding run step advance
  run-Stuck e w [] k = k
  run-Stuck e w (v ∷ vs) k =
      run-Stuck (advance run_slice e v) w vs
        (advance_from-Stuck e v w (worker_at e.workers v) k refl)

  -- A missed wake-up: if a worker has seen an empty queue and no `stopped`, and the executor is told
  -- to stop before that worker waits, the worker waits for ever. With no slot left to run, whatever
  -- steps the workers take after that, it never returns, and `shutdown` joins it without end.
  pub shutdown-misses :
      (e : Executor S) (w : ℕ) (vs : List ℕ)
      → e.ready ≡ []
      → All IsFree e.workers
      → worker_at e.workers w ≡ some about_to_wait
      → worker_at (run run_slice e (stops ∷ notifies_all ∷ advances w ∷ map advances vs)).workers w
        ≡ some waiting
  unfolding run step advance advance_from move
  shutdown-misses e w vs empty free at =
      (run-Stuck (advance run_slice told w) w vs
        (subst (λ x. Stuck w (advance_from run_slice told w x)) (sym still) begun)).waits
    where
      told : Executor S
      told = record e { stopped = true; workers = notify_all e.workers }

      still : worker_at told.workers w ≡ some about_to_wait
      still = worker_at-notify_all e.workers w at

      begun : Stuck w (advance_from run_slice told w (some about_to_wait))
      begun = record {
        empty = empty;
        told = refl;
        free = All-put told.workers w waiting tt (notify_all-IsFree e.workers free);
        waits = put_same told.workers w waiting about_to_wait still;
      }
