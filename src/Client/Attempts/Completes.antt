-- ===== src/Client/Attempts/Completes.antt =====
-- lib/src/client/handle.rs and bridge.rs: a request from its submission to its `OnDone`.
use hyper4k.Prelude.{ℕ, ◌*◌, ◌^◌, ◌≤◌, ◌<◌, ◌≡◌, ◌≢◌, true, false, none, List, arith, subst}
use hyper4k.Retry.{Method}
use hyper4k.Bridge.State.{Callbacks, Slot, bind_connection, is_running, is_terminal, spawn}
use hyper4k.Bridge.Ops.{run, turns, slice}
use hyper4k.Bridge.Invariant.{Idle, spawn-Idle, step-Idle, run-Idle, Shape}
use hyper4k.Bridge.Progress.{Flows, Wake, step-Wake, spawn-Wake, turns-finish}
use hyper4k.Client.Attempts.{RequestPolicy, Attempt, run_request}
use hyper4k.Client.Attempts.Keeps.{run_request-keeps}
use hyper4k.Client.Attempts.Settled.{run_request-settles}

bind_connection-Idle :
    (cap total : ℕ) (s : Slot) (entry : ℕ)
    → Idle cap total s
    → Idle cap total (record s { state = bind_connection s.state entry })
bind_connection-Idle cap total s entry v = unfold bind_connection in ground arith

-- From its submission to its end, if every operation on the request, a worker's slice included, ends
-- before the next one begins: with a request timeout and a consumer that always continues, then
-- whatever the pool and the peer answer and whatever operations other threads carry out meanwhile, once
-- the task has ended the workers finish the request in one turn for each eight places of its queue.
-- `OnDone` has then been called exactly once, as the last callback, and the `finished` closure after it.
pub request-completes :
    (cb : Callbacks) (policy : RequestPolicy) (method : Method) (id cap total : ℕ)
    (attempts : List Attempt) (n : ℕ)
    → Flows cb
    → policy.request_timeout ≢ none
    → 0 < total
    → total < 2 ^ 32
    → cap ≤ slice * n
    → 0 < n
    → let s = run cb (run_request cb policy method (spawn id cap total) attempts).slot (turns n) in
      (s.finished_flag ≡ true) × Shape true s.log
request-completes cb policy method id cap total attempts n flows limited pos fits enough some_turn =
    (finished, subst (λ b. Shape b done.log) finished (run-Idle cb s (turns n) kept.0).core.shape)
  where
    s : Slot
    s = (run_request cb policy method (spawn id cap total) attempts).slot

    done : Slot
    done = run cb s (turns n)

    kept : Idle cap total s × Wake s
    kept =
        run_request-keeps cb (λ s. Idle cap total s × Wake s)
          (λ s op v. (step-Idle cb s op v.0, step-Wake cb flows cap total s op v.0 v.1))
          (λ s entry v.
            (bind_connection-Idle cap total s entry v.0, unfold bind_connection in ground arith))
          policy method (spawn id cap total) attempts
          (spawn-Idle id cap total pos fits, spawn-Wake id cap total)

    closed : is_running s.state.state ≡ false
    closed =
        let v = run_request-settles cb policy method (spawn id cap total) attempts in
        let t = v.0 (v.1 limited) in unfold is_terminal in ground arith

    finished : done.finished_flag ≡ true
    finished =
        turns-finish cb flows cap total n s kept.0 kept.1 closed
          (let b = kept.0.core.bounded in omega arith) some_turn
