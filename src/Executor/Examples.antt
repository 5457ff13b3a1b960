-- ===== src/Executor/Examples.antt =====
-- lib/src/client/executor.rs: concrete executors that the theorems apply to. A slot is the number of
-- events that it has left.
use hyper4k.Prelude.{ℕ, zero, suc, ◌+◌, ◌-◌, ◌≡◌, refl, Bool, ltb, some, List, [], ◌∷◌, map, arith}
use hyper4k.Executor.{
  waiting, about_to_wait, exited, Executor, worker_at, new_executor, Op, schedules, advances, stops,
  notifies_all, run, step, advance, advance_from, move, pop_front, push_back, schedule, run_slot,
  notify_one, notify_all,
}
use hyper4k.Executor.Turns.{Nearer, turns, run-Nearer}
use hyper4k.Executor.Units.{units, all_added, all_retired, run-units}
use hyper4k.Executor.Queue.{takes, runs, returns, acts}
use hyper4k.Executor.Hands.{view}
use hyper4k.Executor.Refines.{run_acts, run-refines}
use hyper4k.Executor.Stopping.{shutdown-joins}
use hyper4k.Executor.Missed.{shutdown-misses}

-- `budget` events are delivered, if there are so many.
abbrev deliver : ℕ → ℕ → ℕ × Bool
deliver budget left = (left - budget, ltb budget left)

-- The first slot is a hog, the others are small.
abbrev busy : Executor ℕ
busy = record (new_executor (λ i. elim i as (λ _. ℕ) [ zero ↦ 1000 | suc j ↦ 4 ]) 1) {
  ready = 0 ∷ 1 ∷ 2 ∷ [];
}

-- Three rounds of one worker: locked in, run, and put back or not.
abbrev rounds : List Op
rounds =
    advances 0 ∷ advances 0 ∷ advances 0 ∷ advances 0 ∷ advances 0 ∷ advances 0 ∷ advances 0 ∷ []

-- The hog is behind the slot that waits.
after_rounds : (run deliver busy rounds).ready ≡ 2 ∷ 0 ∷ []
unfolding run step advance advance_from move pop_front push_back run_slot notify_one new_executor
after_rounds = refl

run-Nearer_example : Nearer deliver 2 2 (turns deliver busy rounds) (run deliver busy rounds).ready
run-Nearer_example = run-Nearer deliver busy rounds 2 2 (0 ∷ 1 ∷ [], [], refl, refl)

run-units_example :
    units 1 (run deliver busy rounds) + all_retired deliver 1 busy rounds
    ≡ units 1 busy + all_added deliver 1 busy rounds
run-units_example = run-units deliver 1 busy rounds

-- The operations of these rounds: the hog is taken, run and put back, and the next slot is taken.
busy_acts : run_acts deliver busy rounds ≡ takes 0 ∷ runs 0 ∷ returns 0 ∷ takes 0 ∷ runs 0 ∷ []
unfolding run step advance advance_from move pop_front push_back run_slot notify_one new_executor
busy_acts = refl

run-refines_example :
    acts deliver (view busy) (run_acts deliver busy rounds) ≡ some (view (run deliver busy rounds))
run-refines_example = run-refines deliver busy rounds

abbrev four_steps : List Op
four_steps = schedules 3 ∷ advances 0 ∷ advances 0 ∷ advances 0 ∷ advances 0 ∷ []

after_stop :
    worker_at (run deliver busy (stops ∷ notifies_all ∷ four_steps)).workers 0 ≡ some exited
unfolding run step advance advance_from move pop_front push_back run_slot notify_one notify_all
    new_executor schedule
after_stop = refl

shutdown-joins_example : exited ≡ exited
unfolding new_executor
shutdown-joins_example =
    shutdown-joins deliver busy four_steps 0 exited refl ((λ e. cc), tt) (omega arith) after_stop

-- An idle executor whose worker has just found the queue empty.
abbrev idle : Executor ℕ
idle = run deliver (new_executor (λ i. 0) 1) (advances 0 ∷ advances 0 ∷ [])

idle_worker : worker_at idle.workers 0 ≡ some about_to_wait
unfolding run step advance advance_from move pop_front new_executor
idle_worker = refl

shutdown-misses_example :
    worker_at
      (run deliver idle (stops ∷ notifies_all ∷ advances 0 ∷ map advances (0 ∷ 0 ∷ []))).workers
      0
    ≡ some waiting
unfolding run step advance advance_from move pop_front new_executor
shutdown-misses_example = shutdown-misses deliver idle 0 (0 ∷ 0 ∷ []) refl (tt, tt) idle_worker
