-- ===== src/Bridge/Invariant/Running.antt =====
-- lib/src/client/bridge.rs: the invariant of a request over its whole life.
use hyper4k.Prelude.{ℕ, ◌<◌, ◌^◌, List}
use hyper4k.Bridge.State.{Callbacks, spawn}
use hyper4k.Bridge.Ops.{Op, run}
use hyper4k.Bridge.Invariant.Stepping.{Idle, spawn-Idle, run-Idle}

-- Between any two operations on a request, from its submission on, if each operation, a worker's slice
-- included, ends before the next one begins: while it runs, the free permits
-- and the queued events make up the capacity, and the queue is never longer than that; a gate that
-- has closed has a terminal waiting until it is handed over; `OnDone` is called at most once, as the
-- last callback, with the `finished` closure run once after it and the bridge counter one lower from
-- then on; an unpaused request holds no paused-stream unit; and a slot marked as scheduled stands in
-- the ready queue.
pub run-spawn-Idle :
    (cb : Callbacks) (id cap total : ℕ) (ops : List Op)
    → 0 < total
    → total < 2 ^ 32
    → Idle cap total (run cb (spawn id cap total) ops)
run-spawn-Idle cb id cap total ops some_bridge fits =
    run-Idle cb (spawn id cap total) ops (spawn-Idle id cap total some_bridge fits)
