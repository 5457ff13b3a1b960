-- ===== src/Bridge/Overlap.antt =====
-- lib/src/client/bridge.rs: a worker's slice in two steps, so that other calls, and a second worker,
-- can get in between: up to the point where the owner has looked at the queue and at `done_ready`, and
-- from there on. Also the two stores of a pause.
pub mod Splits
pub mod Bounced
pub mod Finishing
pub mod Parking
pub mod Invariant
pub mod Examples
use hyper4k.Prelude.{
  ℕ, ◌+◌, ◌-◌, ◌==◌, Bool, true, false, ◌||◌, Option, none, some, List, [], ◌∷◌, if◌then◌else◌,
}
use hyper4k.Bridge.State.{Callbacks, Slot}
use hyper4k.Bridge.Slice.{is_empty, run_owned}
use hyper4k.Bridge.Ops.{slice, Op, step}

-- `run_slice` up to its call of `run_owned`, that call included; a worker that finds another one in
-- the slot bounces.
unfoldable pub start_slice : Callbacks → ℕ → Slot → Slot × Option Bool
start_slice cb budget s =
    if s.running
    then (record s { scheduled = false }, none)
    else (let (t, more) = run_owned cb budget (record s { running = true }) in (t, some more))

-- The rest of `run_slice`: the owner leaves, and looks at the queue again.
unfoldable pub end_slice : Slot → Bool → Slot × Bool
end_slice t more =
    let u = record t { running = false } in
    if u.finished_flag then (u, false) else (u, more || (if is_empty u.queue then false else true))

-- The slot, and what `run_owned` has given to the worker that is inside, if one is.
pub record Shared : Type 0 where
  pub slot : Slot
  pub owner : Option Bool

-- An operation of another thread; a worker takes the slot off the ready queue; its owner leaves.
pub data Turn : Type 0 where
  does : Op → Turn
  takes leaves : Turn

unfoldable pub take : Callbacks → Shared → Shared
take cb o =
    let (t, more) = start_slice cb slice (record (o.slot) { ready = o.slot.ready - 1 }) in
    if o.slot.ready == 0
    then o
    else record { slot = t; owner = elim more [ none ↦ o.owner | some m ↦ some m ] }

unfoldable pub leave_slot : Shared → Bool → Shared
leave_slot o more =
    let (t, again) = end_slice o.slot more in
    record { slot = if again then record t { ready = t.ready + 1 } else t; owner = none }

unfoldable pub turn : Callbacks → Shared → Turn → Shared
turn cb o (does op) = record o { slot = step cb o.slot op }
turn cb o takes = take cb o
turn cb o leaves = elim o.owner [ none ↦ o | some more ↦ leave_slot o more ]

unfoldable pub turns_of : Callbacks → Shared → List Turn → Shared
turns_of cb o [] = o
turns_of cb o (t ∷ ts) = turns_of cb (turn cb o t) ts
