-- ===== src/Bridge/Ops.antt =====
-- lib/src/client/bridge.rs and executor.rs: the operations on one request, and their sequences.
use hyper4k.Prelude.{ℕ, zero, suc, ◌+◌, ◌-◌, Bool, List, [], ◌∷◌, ◌++◌, if◌then◌else◌, ◌==◌}
use hyper4k.Bridge.State.{Event, Terminal, Slot, Callbacks, is_terminal, mark_committed}
use hyper4k.Bridge.Slice.{schedule_slot, settle_slot, resume, cancel, run_slice}

-- What `EventSink::send` comes to: false, still waiting for room, or true.
pub data Sent : Type 0 where
  refused waiting queued : Sent

-- The permit is taken and forgotten, then the event is queued.
unfoldable pub push : Slot → Event → Slot
unfolding mark_committed schedule_slot
push s ev =
    let t = record s {
      space = s.space - 1;
      state = mark_committed s.state;
      queue = s.queue ++ ev ∷ [];
    } in
    if t.state.paused then t else schedule_slot t

unfoldable pub send : Slot → Event → Slot × Sent
unfolding is_terminal
send s ev =
    if is_terminal s.state
    then (s, refused)
    else if s.space == 0
    then (s, waiting)
    else (push s ev, queued)

abbrev pub slice : ℕ
slice = 8

-- One turn of `worker_loop` that takes this slot from the ready queue. A slot with more work goes
-- back to the end; `scheduled` is not set then.
unfoldable pub work : Callbacks → Slot → Slot
work cb s =
    let (t, more) = run_slice cb slice (record s { ready = s.ready - 1 }) in
    if s.ready == 0 then s else if more then record t { ready = t.ready + 1 } else t

pub data Op : Type 0 where
  sends : Event → Op
  settles : Terminal → Bool → Op
  resumes cancels works : Op

unfoldable pub step : Callbacks → Slot → Op → Slot
step cb s (sends ev) = (send s ev).0
step cb s (settles t discard) = settle_slot s t discard
step cb s resumes = (resume s).0
step cb s cancels = (cancel s).0
step cb s works = work cb s

unfoldable pub run : Callbacks → Slot → List Op → Slot
run cb s [] = s
run cb s (op ∷ ops) = run cb (step cb s op) ops

-- `n` turns of a worker.
abbrev pub turns : ℕ → List Op
turns zero = []
turns (suc n) = works ∷ turns n
