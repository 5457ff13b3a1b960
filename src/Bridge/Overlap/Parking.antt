-- ===== src/Bridge/Overlap/Parking.antt =====
-- lib/src/client/bridge.rs: a `resume` between the two stores of `enter_pause`.
use hyper4k.Prelude.{ℕ, ◌≡◌, ◌≢◌, refl, true, false, some, List, [], ◌∷◌, All, arith}
use hyper4k.Bridge.State.{Callbacks, Slot, store_paused, take_guard}
use hyper4k.Bridge.Slice.{settle_slot, resume, cancel}
use hyper4k.Bridge.Ops.{Op, sends, settles, resumes, cancels, works, step, run, send, push}

-- Not paused, and counted as a paused stream of the connection.
record HoldsUnit (entry : ℕ) (s : Slot) : Type 0 where
  unpaused : s.state.paused ≡ false
  held : s.state.pause_guard ≡ some entry

step-HoldsUnit :
    (cb : Callbacks) (entry : ℕ) (s : Slot) (op : Op)
    → op ≢ works
    → HoldsUnit entry s
    → HoldsUnit entry (step cb s op)
unfolding step
step-HoldsUnit cb entry s (sends ev) n v = unfold send in unfold push in ground arith
step-HoldsUnit cb entry s (settles t discard) n v = unfold settle_slot in ground arith
step-HoldsUnit cb entry s resumes n v = unfold resume in ground arith
step-HoldsUnit cb entry s cancels n v = unfold cancel in ground arith
step-HoldsUnit cb entry s works n v = absurd (n refl)

run-HoldsUnit :
    (cb : Callbacks) (entry : ℕ) (s : Slot) (ops : List Op)
    → All (λ op. op ≢ works) ops
    → HoldsUnit entry s
    → HoldsUnit entry (run cb s ops)
unfolding run
run-HoldsUnit cb entry s [] n v = v
run-HoldsUnit cb entry s (op ∷ ops) n v =
    run-HoldsUnit cb entry (step cb s op) ops n.1 (step-HoldsUnit cb entry s op n.0 v)

-- A worker has stored `paused` for a stream of a connection; a `resume` sees it, clears it and drops
-- the guard; then the worker stores the guard. The request is not paused, yet it holds a unit of the
-- connection's paused streams, and keeps it whatever is called on it, until a worker delivers to it.
pub resume_while_parking :
    (cb : Callbacks) (entry : ℕ) (s : Slot) (ops : List Op)
    → s.state.conn ≡ some entry
    → All (λ op. op ≢ works) ops
    → let resumed = (resume (record s { state = store_paused s.state true })).0 in
      let parked = record resumed { state = take_guard resumed.state } in
      ((run cb parked ops).state.paused ≡ false)
      × ((run cb parked ops).state.pause_guard ≡ some entry)
resume_while_parking cb entry s ops at n = (v.unpaused, v.held)
  where
    resumed : Slot
    resumed = (resume (record s { state = store_paused s.state true })).0

    parked : Slot
    parked = record resumed { state = take_guard resumed.state }

    holds : HoldsUnit entry parked
    holds = unfold resume in unfold store_paused in unfold take_guard in ground arith

    v : HoldsUnit entry (run cb parked ops)
    v = run-HoldsUnit cb entry parked ops n holds
