-- ===== src/Bridge/Slice.antt =====
-- lib/src/client/bridge.rs: settling a slot, and the delivery loop of a worker.
use hyper4k.Prelude.{
  ℕ, ℤ, zero, suc, ◌+◌, Bool, true, false, ◌&&◌, ◌||◌, Option, none, some, List, [], ◌∷◌, String,
  if◌then◌else◌, int_eq,
}
pub use hyper4k.Prelude.{is_empty}
use hyper4k.Abi.{
  Hyper4kStatus, status_ok, status_already_done, status_not_paused, err_none, err_cancelled,
  headers_cancel, chunk_pause, chunk_cancel,
}
use hyper4k.Bridge.State.{
  Event, headers, chunk, Terminal, Called, on_event, on_done, on_finished, Slot, Call, resumes,
  cancels, Bytes, Reaction, Callbacks, is_terminal, discarding, claim, enter_pause, leave_pause,
  clear_permit, leave,
}

unfoldable pub schedule_slot : Slot → Slot
schedule_slot s = if s.scheduled then s else record s { scheduled = true; ready = s.ready + 1 }

-- `reschedule`: the weak reference to the slot is alive as long as a handle is.
unfoldable pub release_pause : Slot → Slot
unfolding leave_pause
release_pause s = record s { state = leave_pause s.state }

-- Someone else has settled: release a pause, and no more.
unfoldable pub settle_lost : Slot → Bool → Slot
unfolding release_pause schedule_slot
settle_lost s discard = if discard && s.state.paused then schedule_slot (release_pause s) else s

unfoldable pub settle_won : Slot → Terminal → Bool → Slot
unfolding release_pause schedule_slot
settle_won s terminal discard =
    let t = record s { terminal = some terminal; done_ready = true; space = s.space + 1 } in
    schedule_slot (if discard && t.state.paused then release_pause t else t)

unfoldable pub settle_slot : Slot → Terminal → Bool → Slot
unfolding claim settle_lost settle_won
settle_slot s terminal discard =
    let (r, won) = claim s.state discard in
    if won then settle_won (record s { state = r }) terminal discard else settle_lost s discard

-- `RequestHandle::resume`.
unfoldable pub resume : Slot → Slot × Hyper4kStatus
unfolding release_pause schedule_slot is_terminal
resume s =
    if s.state.paused
    then (schedule_slot (release_pause s), status_ok)
    else if s.state.in_callback
    then (record s { state = record (s.state) { permit = true } }, status_ok)
    else if is_terminal s.state
    then (s, status_already_done)
    else (s, status_not_paused)

abbrev pub cancelled : String → Terminal
cancelled message = record { kind = err_cancelled; protocol_code = 0; message = message }

-- The body of `hyper4k_client_cancel` (handle.rs), once the request is found.
unfoldable pub cancel : Slot → Slot × Hyper4kStatus
unfolding is_terminal settle_slot
cancel s =
    if is_terminal s.state
    then (s, status_already_done)
    else (settle_slot s (cancelled "cancelled") true, status_ok)

-- The calls that a callback makes before it returns.
unfoldable pub run_calls : List Call → Slot → Slot
run_calls [] s = s
run_calls (resumes ∷ cs) s = run_calls cs (resume s).0
run_calls (cancels ∷ cs) s = run_calls cs (cancel s).0

abbrev pub logs : Slot → Called → Slot
logs s c = record s { log = c ∷ s.log }

-- `on_chunk` may be NULL: then the chunk is dropped.
unfoldable pub deliver_chunk :
    Option (List Called → Bytes → Reaction) → Slot → Bytes → Slot × Option ℤ
unfolding run_calls
deliver_chunk none s b = (s, none)
deliver_chunk (some f) s b =
    let r = f s.log b in (run_calls r.calls (logs s (on_event (chunk b))), some r.action)

-- `Slot::deliver`: the callback runs, and its action is mapped onto the chunk actions.
unfoldable pub deliver : Callbacks → Slot → Event → Slot × Option ℤ
unfolding run_calls deliver_chunk
deliver cb s (headers status version hs) =
    let r = cb.on_headers s.log status version hs in
    (
      run_calls r.calls (logs s (on_event (headers status version hs))),
      if int_eq r.action headers_cancel then some chunk_cancel else none,
    )
deliver cb s (chunk b) = deliver_chunk cb.on_chunk s b

-- `deliver_done` passes NULL for a normal completion.
unfoldable pub deliver_done : Slot → Terminal → Slot
deliver_done s t = logs s (on_done (if int_eq t.kind err_none then none else some t))

-- What a round of the loop in `run_owned` does: go on, leave the loop, or return false.
pub data Round : Type 0 where
  continues breaks returns_false : Slot → Round

unfoldable pub react : Slot → Option ℤ → Round
unfolding clear_permit enter_pause settle_slot
react s none = continues (record s { state = clear_permit s.state })
react s (some a) =
    if int_eq a chunk_cancel
    then returns_false (
        settle_slot (record s { state = clear_permit s.state }) (cancelled "cancelled by callback")
          true)
    else if int_eq a chunk_pause
    then (if s.state.permit
        then continues (record s { state = clear_permit s.state })
        else returns_false (record s { state = enter_pause s.state }))
    else continues (record s { state = clear_permit s.state })

abbrev pub set_in_callback : Bool → Slot → Slot
set_in_callback b s = record s { state = record (s.state) { in_callback = b } }

unfoldable pub deliver_event : Callbacks → Slot → Event → Round
unfolding deliver react
deliver_event cb s ev =
    let (t, action) = deliver cb (set_in_callback true s) ev in
    react (set_in_callback false t) action

-- One event has left the queue.
unfoldable pub take_event : Callbacks → Slot → List Event → Round
unfolding discarding deliver_event
take_event cb s [] = breaks s
take_event cb s (ev ∷ rest) =
    let t = record s { queue = rest; space = s.space + 1 } in
    if discarding s.state then continues t else deliver_event cb t ev

unfoldable pub round : Callbacks → Slot → Round
unfolding take_event
round cb s = if s.state.paused then returns_false s else take_event cb s s.queue

-- The `for` loop: it ends by `breaks` or with the budget used up, or returns false.
unfoldable pub rounds : Callbacks → ℕ → Slot → Round
rounds cb zero s = breaks s
rounds cb (suc budget) s = elim (round cb s) [
  | continues t ↦ rounds cb budget t
  | breaks t ↦ breaks t
  | returns_false t ↦ returns_false t
]

-- `OnDone`, then the `finished` closure, then the counter.
unfoldable pub finish : Slot → Terminal → Slot
unfolding deliver_done leave
finish s t =
    let u = record (deliver_done s t) { terminal = none; finished_flag = true } in
    let v = if u.finished then record (logs u on_finished) { finished = false } else u in
    record v { counter = leave v.counter }

unfoldable pub wind_up : Slot → Slot × Bool
unfolding finish
wind_up s =
    let empty = is_empty s.queue in
    if empty && s.done_ready
    then (elim s.terminal [ none ↦ s | some t ↦ finish s t ], false)
    else (s, if empty then false else true)

unfoldable pub after_rounds : Round → Slot × Bool
after_rounds (continues s) = wind_up s
after_rounds (breaks s) = wind_up s
after_rounds (returns_false s) = (s, false)

unfoldable pub run_owned : Callbacks → ℕ → Slot → Slot × Bool
run_owned cb budget s =
    let t = record s { scheduled = false } in
    if t.state.paused then (t, false) else after_rounds (rounds cb budget t)

unfoldable pub run_slice : Callbacks → ℕ → Slot → Slot × Bool
run_slice cb budget s =
    if s.running
    then (record s { scheduled = false }, false)
    else (let (t, more) = run_owned cb budget (record s { running = true }) in
        let u = record t { running = false } in
        if u.finished_flag
        then (u, false)
        else (u, more || (if is_empty u.queue then false else true)))
