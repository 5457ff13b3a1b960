-- ===== src/Client/Examples.antt =====
-- lib/src/client/handle.rs: concrete requests and limits that the theorems apply to.
use hyper4k.Prelude.{◌+◌, ◌≡◌, ◌≢◌, ◌≤◌, true, false, none, some, List, [], ◌∷◌, arith, length}
use hyper4k.Retry.{get, post}
use hyper4k.Bridge.State.{is_terminal, spawn}
use hyper4k.Client.Limits.{
  new, start, Step, advance, advance_all, counts, adds, drops, leaves, pick, add_inflight,
  sub_inflight, add_bytes, sub_bytes,
}
use hyper4k.Client.Limits.Counters.{sum, AllFit, reservations_within}
use hyper4k.Client.Attempts.{
  RequestPolicy, returned, Attempt, failed, answered, closed_on_arrival, worked, ended, data_frame,
  run_request,
}
use hyper4k.Bridge.Examples.{consumer, consumer-Flows}
use hyper4k.Bridge.Ops.{run, turns}
use hyper4k.Bridge.Invariant.{Shape}
use hyper4k.Client.Attempts.Completes.{request-completes}
use hyper4k.Client.Attempts.Settled.{run_request-settles}

abbrev two_retries : RequestPolicy
two_retries = record { max_retries = 2; request_timeout = some 60000; read_idle_timeout = none }

-- A closed connection, a send that never reached the peer, then an answer with one chunk.
abbrev bumpy : List Attempt
bumpy =
    record { acquiring = []; entry = 1; sending = []; reply = closed_on_arrival }
    ∷ record { acquiring = []; entry = 2; sending = worked ∷ []; reply = failed true }
    ∷ record {
      acquiring = [];
      entry = 3;
      sending = [];
      reply = answered 200 2 [] [] (
          record { before = worked ∷ []; next = data_frame (104 ∷ []) [] }
          ∷ record { before = []; next = ended }
          ∷ []);
    }
    ∷ []

run_request-settles_example :
    let r =
      run_request consumer two_retries get
        (spawn 1 8 1)
        (record { acquiring = []; entry = 1; sending = []; reply = failed false } ∷ []) in
    (r.ends ≡ returned → is_terminal r.slot.state ≡ true)
    × (two_retries.request_timeout ≢ none → r.ends ≡ returned)
run_request-settles_example =
    run_request-settles consumer two_retries get (spawn 1 8 1)
      (record { acquiring = []; entry = 1; sending = []; reply = failed false } ∷ [])

-- Two calls race for one place: the second is refused and leaves.
abbrev race : List Step
race = counts 100 ∷ counts 50 ∷ leaves ∷ adds 0 ∷ drops 0 ∷ leaves ∷ []

race-AllFit : AllFit (start 1 1000) race
unfolding start new advance pick add_inflight sub_inflight add_bytes sub_bytes
race-AllFit = (ground arith, (ground arith, (tt, (ground arith, (tt, (tt, tt))))))

reservations_within_example :
    let c = advance_all (start 1 1000) race in
    (length c.held ≤ 1)
    × (sum c.held ≤ 1000)
    × (c.limits.inflight ≡ length c.counted + c.leaving + length c.refused + length c.held)
    × (c.limits.bytes ≡ sum c.refused + sum c.held)
reservations_within_example = reservations_within 1 1000 race race-AllFit

request-completes_example :
    let s =
      run consumer (run_request consumer two_retries post (spawn 1 8 1) bumpy).slot (turns 1) in
    (s.finished_flag ≡ true) × Shape true s.log
request-completes_example =
    request-completes consumer two_retries post 1 8 1 bumpy 1 consumer-Flows (λ e. ground arith)
      (ground arith) (ground arith) (ground arith) (ground arith)
