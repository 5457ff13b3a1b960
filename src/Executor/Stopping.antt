-- ===== src/Executor/Stopping.antt =====
-- lib/src/client/executor.rs: `shutdown`, and the workers that it joins.
use hyper4k.Prelude.{
  ℕ, zero, suc, ◌+◌, ◌-◌, ◌≤◌, ◌≡◌, ◌≢◌, refl, sym, ap, ◌∙◌, subst, Bool, true, false,
  if◌then◌else◌, Option, none, some, List, [], ◌∷◌, All, ◌==◌, arith, if_cases,
}
use hyper4k.Bridge.Ops.{slice}
use hyper4k.Executor.{
  Worker, looping, locking, about_to_wait, waiting, exited, running, requeueing, Executor,
  worker_at, put, notify_one, notify_all, push_back, schedule, move, pop_front, run_slot,
  advance_from, advance, Op, schedules, advances, stops, notifies_all, step, run,
}

-- How many steps a worker has left once the executor is stopped.
abbrev pub steps_left : Worker → ℕ
steps_left exited = 0
steps_left looping = 1
steps_left (requeueing i) = 2
steps_left (running i) = 3
steps_left locking = 4
steps_left waiting = 5
steps_left about_to_wait = 6

abbrev pub IsAwake : Worker → Type 0
IsAwake w = steps_left w ≤ 4

-- Stopped, with the lock free and nobody in the wait or on the way into it.
pub record Drains {S : Type 0} (e : Executor S) : Type 0 where
  pub told : e.stopped ≡ true
  pub free : e.locked ≡ false
  pub awake : All IsAwake e.workers

-- The steps that worker `w` has left, none if there is no such worker.
abbrev pub left_at : List Worker → ℕ → ℕ
left_at [] w = 0
left_at (x ∷ ws) zero = steps_left x
left_at (x ∷ ws) (suc w) = left_at ws w

abbrev pub used : ℕ → Op → ℕ
used w (advances v) = if v == w then 1 else 0
used w _ = 0

-- How often a run lets `w` take a step.
abbrev pub given : ℕ → List Op → ℕ
given w [] = 0
given w (op ∷ ops) = used w op + given w ops

notify_one-awake : (ws : List Worker) → All IsAwake ws → notify_one ws ≡ ws
unfolding notify_one
notify_one-awake [] a = refl
notify_one-awake (waiting ∷ ws) a = absurd (omega arith)
notify_one-awake (looping ∷ ws) a = ap (◌∷◌ looping) (notify_one-awake ws a.1)
notify_one-awake (locking ∷ ws) a = ap (◌∷◌ locking) (notify_one-awake ws a.1)
notify_one-awake (about_to_wait ∷ ws) a = absurd (omega arith)
notify_one-awake (exited ∷ ws) a = ap (◌∷◌ exited) (notify_one-awake ws a.1)
notify_one-awake (running i ∷ ws) a = ap (◌∷◌ (running i)) (notify_one-awake ws a.1)
notify_one-awake (requeueing i ∷ ws) a = ap (◌∷◌ (requeueing i)) (notify_one-awake ws a.1)

notify_all-awake : (ws : List Worker) → All IsAwake ws → notify_all ws ≡ ws
unfolding notify_all
notify_all-awake [] a = refl
notify_all-awake (waiting ∷ ws) a = absurd (omega arith)
notify_all-awake (looping ∷ ws) a = ap (◌∷◌ looping) (notify_all-awake ws a.1)
notify_all-awake (locking ∷ ws) a = ap (◌∷◌ locking) (notify_all-awake ws a.1)
notify_all-awake (about_to_wait ∷ ws) a = absurd (omega arith)
notify_all-awake (exited ∷ ws) a = ap (◌∷◌ exited) (notify_all-awake ws a.1)
notify_all-awake (running i ∷ ws) a = ap (◌∷◌ (running i)) (notify_all-awake ws a.1)
notify_all-awake (requeueing i ∷ ws) a = ap (◌∷◌ (requeueing i)) (notify_all-awake ws a.1)

All-put :
    (ws : List Worker) (v : ℕ) (x : Worker) → IsAwake x → All IsAwake ws → All IsAwake (put ws v x)
All-put [] v x h a = tt
All-put (y ∷ ws) zero x h a = (h, a.1)
All-put (y ∷ ws) (suc v) x h a = (a.0, All-put ws v x h a.1)

left_at-put :
    (ws : List Worker) (v w : ℕ) (x y : Worker)
    → worker_at ws v ≡ some y
    → steps_left x + 1 ≤ steps_left y
    → left_at (put ws v x) w ≤ left_at ws w - (if v == w then 1 else 0)
left_at-put [] v w x y e h = cc
left_at-put (z ∷ ws) zero zero x y e h =
    let k = ap steps_left (let same : z ≡ y = cc in same) in omega arith
left_at-put (z ∷ ws) zero (suc w) x y e h = ground arith
left_at-put (z ∷ ws) (suc v) zero x y e h = ground arith
left_at-put (z ∷ ws) (suc v) (suc w) x y e h = let k = left_at-put ws v w x y e h in ground arith

left_at-none :
    (ws : List Worker) (v w : ℕ)
    → worker_at ws v ≡ none
    → left_at ws w ≤ left_at ws w - (if v == w then 1 else 0)
left_at-none [] v w e = omega arith
left_at-none (z ∷ ws) zero w e = cc
left_at-none (z ∷ ws) (suc v) zero e = ground arith
left_at-none (z ∷ ws) (suc v) (suc w) e = let k = left_at-none ws v w e in ground arith

left_at-exited :
    (ws : List Worker) (v w : ℕ)
    → worker_at ws v ≡ some exited
    → left_at ws w ≤ left_at ws w - (if v == w then 1 else 0)
left_at-exited [] v w e = cc
left_at-exited (z ∷ ws) zero zero e =
    let k = ap steps_left (let same : z ≡ exited = cc in same) in omega arith
left_at-exited (z ∷ ws) zero (suc w) e = ground arith
left_at-exited (z ∷ ws) (suc v) zero e = ground arith
left_at-exited (z ∷ ws) (suc v) (suc w) e = let k = left_at-exited ws v w e in ground arith

IsAwake-worker_at :
    (ws : List Worker) (v : ℕ) (x : Worker) → All IsAwake ws → worker_at ws v ≡ some x → IsAwake x
IsAwake-worker_at [] v x a e = cc
IsAwake-worker_at (z ∷ ws) zero x a e = subst IsAwake (let same : z ≡ x = cc in same) a.0
IsAwake-worker_at (z ∷ ws) (suc v) x a e = IsAwake-worker_at ws v x a.1 e

module _ {S : Type 0} (run_slice : ℕ → S → S × Bool) where
  -- Worker `v` has used its step, and the others are where they were.
  abbrev Moves : Executor S → ℕ → Executor S → Type 0
  Moves e v f =
      Drains f × ((w : ℕ) → left_at f.workers w ≤ left_at e.workers w - (if v == w then 1 else 0))

  moved :
      (e f : Executor S) (v : ℕ) (x y : Worker)
      → Drains e
      → worker_at e.workers v ≡ some y
      → steps_left x + 1 ≤ steps_left y
      → f.stopped ≡ e.stopped
      → f.locked ≡ e.locked
      → f.workers ≡ put e.workers v x
      → Moves e v f
  moved e f v x y d at less s l ws = (
    record {
      told = s ∙ d.told;
      free = l ∙ d.free;
      awake = subst (All IsAwake) (sym ws) (
          All-put e.workers v x (let a = IsAwake-worker_at e.workers v y d.awake at in omega arith)
            d.awake);
    },
    λ w.
        subst (λ k. left_at k w ≤ left_at e.workers w - (if v == w then 1 else 0)) (sym ws)
          (left_at-put e.workers v w x y at less),
  )

  told_so : (e : Executor S) → Drains e → e.stopped ≡ false → ⊥
  told_so e d on = let t = d.told in cc

  held_so : (e : Executor S) → Drains e → e.locked ≡ true → ⊥
  held_so e d on = let t = d.free in cc

  pop_front-Moves :
      (e : Executor S) (v : ℕ) (ready : List ℕ)
      → Drains e
      → worker_at e.workers v ≡ some locking
      → Moves e v (pop_front run_slice e v ready)
  unfolding pop_front move
  pop_front-Moves e v [] d at =
      if_cases (Moves e v) e.stopped
        (λ _.
          moved e (move run_slice e v exited) v exited locking d at (omega arith) refl refl refl)
        (λ on. absurd (told_so e d on))
  pop_front-Moves e v (j ∷ rest) d at =
      moved e (record (move run_slice e v (running j)) { ready = rest }) v (running j) locking d at
        (omega arith) refl refl refl

  after_slice : (more : Bool) (j : ℕ) → steps_left (if more then requeueing j else looping) + 1 ≤ 3
  after_slice true j = omega arith
  after_slice false j = omega arith

  advance_from-Moves :
      (e : Executor S) (v : ℕ) (x : Option Worker)
      → Drains e
      → worker_at e.workers v ≡ x
      → Moves e v (advance_from run_slice e v x)
  unfolding advance_from move run_slot push_back
  advance_from-Moves e v none d at = (d, λ w. left_at-none e.workers v w at)
  advance_from-Moves e v (some exited) d at = (d, λ w. left_at-exited e.workers v w at)
  advance_from-Moves e v (some waiting) d at =
      let a = IsAwake-worker_at e.workers v waiting d.awake at in absurd (omega arith)
  advance_from-Moves e v (some about_to_wait) d at =
      let a = IsAwake-worker_at e.workers v about_to_wait d.awake at in absurd (omega arith)
  advance_from-Moves e v (some looping) d at =
      moved e (move run_slice e v (if e.stopped then exited else locking)) v
        (if e.stopped then exited else locking) looping d at (rw d.told (omega arith)) refl refl
        refl
  advance_from-Moves e v (some (running j)) d at =
      let more = (run_slice slice (e.slots j)).1 in
      moved e (run_slot run_slice e v j) v (if more then requeueing j else looping) (running j) d at
        (after_slice more j) refl refl refl
  advance_from-Moves e v (some (requeueing j)) d at =
      if_cases (Moves e v) e.locked (λ held. absurd (held_so e d held))
        (λ _.
          moved e (push_back run_slice (move run_slice e v looping) j) v looping (requeueing j) d at
            (omega arith) refl refl
            (notify_one-awake (put e.workers v looping)
              (All-put e.workers v looping (omega arith) d.awake)))
  advance_from-Moves e v (some locking) d at =
      if_cases (Moves e v) e.locked (λ held. absurd (held_so e d held))
        (λ _. pop_front-Moves e v e.ready d at)

  abbrev Kept : Executor S → Executor S → Type 0
  Kept e f = Drains f × ((w : ℕ) → left_at f.workers w ≤ left_at e.workers w - 0)

  kept :
      (e f : Executor S)
      → Drains e
      → f.stopped ≡ true
      → f.locked ≡ e.locked
      → f.workers ≡ e.workers
      → Kept e f
  kept e f d s l ws = (
    record { told = s; free = l ∙ d.free; awake = subst (All IsAwake) (sym ws) d.awake },
    λ w. subst (λ k. left_at k w ≤ left_at e.workers w - 0) (sym ws) (omega arith),
  )

  step-Drains :
      (e : Executor S) (op : Op)
      → Drains e
      → Drains (step run_slice e op)
        × ((w : ℕ) → left_at (step run_slice e op).workers w ≤ left_at e.workers w - used w op)
  unfolding step schedule push_back advance
  step-Drains e (advances v) d = advance_from-Moves e v (worker_at e.workers v) d refl
  step-Drains e (schedules i) d =
      if_cases (Kept e) e.locked (λ held. absurd (held_so e d held))
        (λ _. kept e (push_back run_slice e i) d d.told refl (notify_one-awake e.workers d.awake))
  step-Drains e stops d = kept e (record e { stopped = true }) d refl refl refl
  step-Drains e notifies_all d =
      kept e (record e { workers = notify_all e.workers }) d d.told refl
        (notify_all-awake e.workers d.awake)

  run-Drains :
      (e : Executor S) (ops : List Op)
      → Drains e
      → (w : ℕ) → left_at (run run_slice e ops).workers w ≤ left_at e.workers w - given w ops
  unfolding run
  run-Drains e [] d w = omega arith
  run-Drains e (op ∷ ops) d w =
      let (f, l) = step-Drains e op d in
      let k = run-Drains (step run_slice e op) ops f w in let m = l w in omega arith

  left_at-le : (ws : List Worker) (w : ℕ) → All IsAwake ws → left_at ws w ≤ 4
  left_at-le [] w a = omega arith
  left_at-le (x ∷ ws) zero a = a.0
  left_at-le (x ∷ ws) (suc w) a = left_at-le ws w a.1

  nothing_left : (x : Worker) → steps_left x ≡ 0 → x ≡ exited
  nothing_left exited e = refl
  nothing_left looping e = absurd (omega arith)
  nothing_left locking e = absurd (omega arith)
  nothing_left about_to_wait e = absurd (omega arith)
  nothing_left waiting e = absurd (omega arith)
  nothing_left (running i) e = absurd (omega arith)
  nothing_left (requeueing i) e = absurd (omega arith)

  at_end :
      (ws : List Worker) (w : ℕ) (x : Worker)
      → worker_at ws w ≡ some x
      → left_at ws w ≡ 0
      → x ≡ exited
  at_end [] w x e l = cc
  at_end (y ∷ ws) zero x e l = let same : y ≡ x = cc in sym same ∙ nothing_left y l
  at_end (y ∷ ws) (suc w) x e l = at_end ws w x e l

  notify_all-IsAwake :
      (ws : List Worker) → All (λ x. x ≢ about_to_wait) ws → All IsAwake (notify_all ws)
  unfolding notify_all
  notify_all-IsAwake [] a = tt
  notify_all-IsAwake (about_to_wait ∷ ws) a = absurd (a.0 refl)
  notify_all-IsAwake (looping ∷ ws) a = (omega arith, notify_all-IsAwake ws a.1)
  notify_all-IsAwake (locking ∷ ws) a = (omega arith, notify_all-IsAwake ws a.1)
  notify_all-IsAwake (waiting ∷ ws) a = (omega arith, notify_all-IsAwake ws a.1)
  notify_all-IsAwake (exited ∷ ws) a = (omega arith, notify_all-IsAwake ws a.1)
  notify_all-IsAwake (running i ∷ ws) a = (omega arith, notify_all-IsAwake ws a.1)
  notify_all-IsAwake (requeueing i ∷ ws) a = (omega arith, notify_all-IsAwake ws a.1)

  -- If no worker is between its look at `stopped` and its wait when the executor is told to stop, a
  -- worker returns within four steps of its own, whatever else goes on: work that is scheduled later,
  -- slots that always have more, and the other workers.
  pub shutdown-joins :
      (e : Executor S) (ops : List Op) (w : ℕ) (x : Worker)
      → e.locked ≡ false
      → All (λ y. y ≢ about_to_wait) e.workers
      → 4 ≤ given w ops
      → worker_at (run run_slice e (stops ∷ notifies_all ∷ ops)).workers w ≡ some x
      → x ≡ exited
  unfolding run step
  shutdown-joins e ops w x free clear enough at =
      let told : Executor S = record e { stopped = true; workers = notify_all e.workers } in
      let awake = notify_all-IsAwake e.workers clear in
      let k = run-Drains told ops (record { told = refl; free = free; awake = awake }) w in
      let l = left_at-le (notify_all e.workers) w awake in
      at_end (run run_slice told ops).workers w x at (omega arith)
