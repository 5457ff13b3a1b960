-- ===== src/Bridge/Overlap/Invariant.antt =====
-- lib/src/client/bridge.rs: the invariant of a request where other threads and further workers get in
-- at the end of a slice.
use hyper4k.Prelude.{
  ℕ, ◌+◌, ◌-◌, ◌<◌, ◌^◌, ◌==◌, ◌≢◌, refl, sym, subst, Bool, true, false, ◌||◌, Option, none, some,
  List, [], ◌∷◌, All, arith, if◌then◌else◌, if_cases,
}
use hyper4k.Bridge.State.{Callbacks, Slot, spawn}
use hyper4k.Bridge.Slice.{is_empty}
use hyper4k.Bridge.Ops.{works, slice}
use hyper4k.Bridge.Invariant.{Core, Idle, run_owned-Held, spawn-Idle, step-Idle}
use hyper4k.Bridge.Overlap.{
  start_slice, end_slice, Shared, Turn, does, takes, leaves, take, leave_slot, turn, turns_of,
}
use hyper4k.Bridge.Overlap.Splits.{step-running}
use hyper4k.Bridge.Overlap.Finishing.{submitted}

-- The slot without the mark of the worker that is inside.
abbrev pub unmarked : Slot → Slot
unmarked s = record s { running = false }

-- A slice is a turn that takes the slot and one that leaves it.
abbrev pub IsSingle : Turn → Type 0
IsSingle (does op) = op ≢ works
IsSingle _ = Unit

module _ (cb : Callbacks) (cap total : ℕ) where
  started :
      (s : Slot)
      → Idle cap total (unmarked s)
      → Idle cap total (unmarked (start_slice cb slice (record s { ready = s.ready - 1 })).0)
  unfolding start_slice
  started s v =
      if_cases (λ (r : Slot × Option Bool). Idle cap total (unmarked r.0)) s.running
        (λ _. let i = v in ground arith)
        (λ _.
          let core : Core cap total t = let c = v.core in ground arith in
          let held = run_owned-Held cb slice t core refl v.quiet v.spent in ground arith)
    where
      t : Slot
      t = record s { ready = s.ready - 1; running = true }

  take-Idle :
      (o : Shared) → Idle cap total (unmarked o.slot) → Idle cap total (unmarked (take cb o).slot)
  unfolding take
  take-Idle o v =
      if_cases (λ (p : Shared). Idle cap total (unmarked p.slot)) (o.slot.ready == 0) (λ _. v)
        (λ _. started o.slot v)

  leave_slot-Idle :
      (o : Shared) (more : Bool)
      → Idle cap total (unmarked o.slot)
      → Idle cap total (unmarked (leave_slot o more).slot)
  unfolding leave_slot end_slice
  leave_slot-Idle o more v =
      if_cases
        (λ (r : Slot × Bool).
          Idle cap total (unmarked (if r.1 then record (r.0) { ready = r.0.ready + 1 } else r.0)))
        o.slot.finished_flag (λ _. v)
        (λ _.
          if_cases (λ t. Idle cap total (unmarked t))
            (more || (if is_empty o.slot.queue then false else true))
            (λ _. let i = v in ground arith) (λ _. v))

  turn-Idle :
      (o : Shared) (t : Turn)
      → IsSingle t
      → Idle cap total (unmarked o.slot)
      → Idle cap total (unmarked (turn cb o t).slot)
  unfolding turn
  turn-Idle o (does op) n v =
      subst (Idle cap total) (sym (step-running cb o.slot op false n))
        (step-Idle cb (unmarked o.slot) op v)
  turn-Idle o takes n v = take-Idle o v
  turn-Idle o leaves n v = go o.owner
    where
      go :
          (w : Option Bool)
          → Idle cap total
              (unmarked (elim w as (λ _. Shared) [ none ↦ o | some more ↦ leave_slot o more ]).slot)
      go none = v
      go (some more) = leave_slot-Idle o more v

  turns_of-Idle :
      (o : Shared) (ts : List Turn)
      → All IsSingle ts
      → Idle cap total (unmarked o.slot)
      → Idle cap total (unmarked (turns_of cb o ts).slot)
  unfolding turns_of
  turns_of-Idle o [] n v = v
  turns_of-Idle o (t ∷ ts) n v = turns_of-Idle (turn cb o t) ts n.1 (turn-Idle o t n.0 v)

-- From its submission on, where sends, settlements, resumes and cancels come between the slices of the
-- workers, or inside one between its last look at the slot and its end, and any number of other
-- workers take the slot meanwhile and bounce (the two stores of a pause being one step): while it
-- runs, the free permits and the queued events make up the capacity, and the queue is never longer
-- than that; a gate that has closed has a terminal waiting until it is handed over; `OnDone` is called
-- at most once, as the last callback, with the `finished` closure run once after it and the bridge
-- counter one lower from then on; an unpaused request holds no paused-stream unit; and a slot marked
-- as scheduled stands in the ready queue.
pub overlapped-Idle :
    (cb : Callbacks) (id cap total : ℕ) (ts : List Turn)
    → 0 < total
    → total < 2 ^ 32
    → All IsSingle ts
    → Idle cap total (unmarked (turns_of cb (submitted id cap total) ts).slot)
overlapped-Idle cb id cap total ts pos fits single =
    turns_of-Idle cb cap total (submitted id cap total) ts single
      (let v = spawn-Idle id cap total pos fits in unfold spawn in ground arith)
