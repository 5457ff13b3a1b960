-- ===== src/Executor/Refines.antt =====
-- lib/src/client/executor.rs: the threads with their lock and their condition variable keep to the
-- queue with atomic operations.
use hyper4k.Prelude.{
  ℕ, ◌≡◌, refl, sym, ap, ◌∙◌, Bool, true, false, if◌then◌else◌, ◌==◌, Option, none, some, List, [],
  ◌∷◌, ◌++◌, if_cases,
}
use hyper4k.Bridge.Ops.{slice}
use hyper4k.Executor.{
  Worker, looping, locking, about_to_wait, waiting, exited, running, requeueing, Executor,
  worker_at, put, push_back, schedule, move, pop_front, run_slot, advance_from, advance, Op,
  schedules, advances, stops, notifies_all, step, run,
}
use hyper4k.Executor.Queue.{
  nothing, Act, enters, takes, runs, returns, put_hand, take_front, run_fresh, put_back, acts, made,
  alone, acts-append,
}
use hyper4k.Executor.Hands.{
  hand, hands_of, view, hands-put, put-hand_at, hand_at-worker_at, hands-notify_one,
  hands-notify_all, hand_next,
}

module _ {S : Type 0} (run_slice : ℕ → S → S × Bool) where
  abbrev pop_acts : ℕ → List ℕ → List Act
  pop_acts w [] = []
  pop_acts w (i ∷ rest) = takes w ∷ []

  -- What a step of a worker does to the queue: at most one operation, and none while it would have to
  -- wait for the lock.
  abbrev pub advance_acts : Executor S → ℕ → Option Worker → List Act
  advance_acts e w (some locking) = if e.locked then [] else pop_acts w e.ready
  advance_acts e w (some (running i)) = runs w ∷ []
  advance_acts e w (some (requeueing i)) = if e.locked then [] else returns w ∷ []
  advance_acts e w _ = []

  abbrev pub step_acts : Executor S → Op → List Act
  step_acts e (schedules i) = if e.locked then [] else enters i ∷ []
  step_acts e (advances w) = advance_acts e w (worker_at e.workers w)
  step_acts e stops = []
  step_acts e notifies_all = []

  abbrev pub run_acts : Executor S → List Op → List Act
  run_acts e [] = []
  run_acts e (op ∷ ops) = step_acts e op ++ run_acts (step run_slice e op) ops

  abbrev Allows : Executor S → List Act → Executor S → Type 0
  Allows e as_ f = acts run_slice (view e) as_ ≡ some (view f)

  -- Who has to wait for the lock does nothing.
  locked-Allows :
      (e f : Executor S) (as_ : List Act) (b : Bool)
      → Allows e as_ f
      → Allows e (if b then [] else as_) (if b then e else f)
  locked-Allows e f as_ true k = refl
  locked-Allows e f as_ false k = k

  -- A worker that goes on to a place where it has the same in hand.
  move-Allows :
      (e f : Executor S) (w : ℕ) (x y : Worker)
      → worker_at e.workers w ≡ some y
      → hand x ≡ hand y
      → view f ≡ view (move run_slice e w x)
      → Allows e [] f
  unfolding move
  move-Allows e f w x y at h same =
      ap (made run_slice e.slots e.ready) (sym (put-hand_at e.workers w x y at h))
      ∙ ap some (sym same)

  push_back-Allows : (e : Executor S) (i : ℕ) → Allows e (enters i ∷ []) (push_back run_slice e i)
  unfolding push_back
  push_back-Allows e i =
      ap (made run_slice e.slots (e.ready ++ i ∷ [])) (sym (hands-notify_one e.workers))

  pop_front-Allows :
      (e : Executor S) (w : ℕ) (ready : List ℕ)
      → worker_at e.workers w ≡ some locking
      → e.ready ≡ ready
      → Allows e (pop_acts w ready) (pop_front run_slice e w ready)
  unfolding pop_front move
  pop_front-Allows e w [] at r =
      if_cases (Allows e []) e.stopped
        (λ _. move-Allows e (move run_slice e w exited) w exited locking at refl refl)
        (λ _.
          move-Allows e (record (move run_slice e w about_to_wait) { locked = true }) w
            about_to_wait locking at refl refl)
  pop_front-Allows e w (i ∷ rest) at r =
      alone run_slice (view e) (view (pop_front run_slice e w (i ∷ rest))) (takes w) (
        ap (λ h. take_front run_slice (view e) w h e.ready)
          (hand_at-worker_at e.workers w locking at)
        ∙ ap (take_front run_slice (view e) w (some nothing)) r
        ∙ ap (made run_slice e.slots rest) (sym (hands-put e.workers w (running i))))

  run_slot-Allows :
      (e : Executor S) (w i : ℕ)
      → worker_at e.workers w ≡ some (running i)
      → Allows e (runs w ∷ []) (run_slot run_slice e w i)
  unfolding run_slot move
  run_slot-Allows e w i at = alone run_slice (view e) (view (run_slot run_slice e w i)) (runs w) (
      ap (run_fresh run_slice (view e) w) (hand_at-worker_at e.workers w (running i) at)
      ∙ ap (λ h. made run_slice after e.ready (put_hand (hands_of e.workers) w h))
          (hand_next i ran.1)
      ∙ ap (made run_slice after e.ready)
          (sym (hands-put e.workers w (if ran.1 then requeueing i else looping))))
    where
      ran : S × Bool
      ran = run_slice slice (e.slots i)

      after : ℕ → S
      after j = if j == i then ran.0 else e.slots j

  returns-Allows :
      (e : Executor S) (w i : ℕ)
      → worker_at e.workers w ≡ some (requeueing i)
      → Allows e (returns w ∷ []) (push_back run_slice (move run_slice e w looping) i)
  unfolding push_back move
  returns-Allows e w i at =
      alone run_slice (view e) (view (push_back run_slice (move run_slice e w looping) i))
        (returns w)
        (ap (put_back run_slice (view e) w) (hand_at-worker_at e.workers w (requeueing i) at)
          ∙ ap (made run_slice e.slots (e.ready ++ i ∷ []))
              (sym (hands-notify_one (put e.workers w looping) ∙ hands-put e.workers w looping)))

  advance_from-Allows :
      (e : Executor S) (w : ℕ) (x : Option Worker)
      → worker_at e.workers w ≡ x
      → Allows e (advance_acts e w x) (advance_from run_slice e w x)
  unfolding advance_from move
  advance_from-Allows e w none at = refl
  advance_from-Allows e w (some exited) at = refl
  advance_from-Allows e w (some waiting) at = refl
  advance_from-Allows e w (some looping) at =
      move-Allows e (move run_slice e w (if e.stopped then exited else locking)) w
        (if e.stopped then exited else locking) looping at
        (if_cases (λ x. hand x ≡ nothing) e.stopped (λ _. refl) (λ _. refl)) refl
  advance_from-Allows e w (some about_to_wait) at =
      move-Allows e (record (move run_slice e w waiting) { locked = false }) w waiting about_to_wait
        at refl refl
  advance_from-Allows e w (some locking) at =
      locked-Allows e (pop_front run_slice e w e.ready) (pop_acts w e.ready) e.locked
        (pop_front-Allows e w e.ready at refl)
  advance_from-Allows e w (some (running i)) at = run_slot-Allows e w i at
  advance_from-Allows e w (some (requeueing i)) at =
      locked-Allows e (push_back run_slice (move run_slice e w looping) i) (returns w ∷ []) e.locked
        (returns-Allows e w i at)

  step-Allows : (e : Executor S) (op : Op) → Allows e (step_acts e op) (step run_slice e op)
  unfolding step schedule advance
  step-Allows e (schedules i) =
      locked-Allows e (push_back run_slice e i) (enters i ∷ []) e.locked (push_back-Allows e i)
  step-Allows e (advances w) = advance_from-Allows e w (worker_at e.workers w) refl
  step-Allows e stops = refl
  step-Allows e notifies_all =
      ap (made run_slice e.slots e.ready) (sym (hands-notify_all e.workers))

  -- The threads refine a queue whose operations are atomic: whatever they do, and whoever holds the
  -- lock or waits, slots, queue and what the workers have in hand change by allowed operations only,
  -- in the order of the steps: a slot enters at the back, a worker with nothing in hand takes the
  -- front, runs what it took for one slice, and returns to the back what has more to do.
  pub run-refines :
      (e : Executor S) (ops : List Op)
      → acts run_slice (view e) (run_acts e ops) ≡ some (view (run run_slice e ops))
  unfolding run
  run-refines e [] = refl
  run-refines e (op ∷ ops) =
      acts-append run_slice (view e) (view (step run_slice e op)) (step_acts e op)
        (run_acts (step run_slice e op) ops) (step-Allows e op)
      ∙ run-refines (step run_slice e op) ops
