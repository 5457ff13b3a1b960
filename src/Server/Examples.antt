-- ===== src/Server/Examples.antt =====
-- lib/src/lib.rs: concrete tables and calls that the theorems apply to.
use hyper4k.Prelude.{ℕ, ◌≡◌, refl, true, false, none, some, [], ◌∷◌, ◌==◌, lookup, contains}
use hyper4k.Headers.{HeaderRules}
use hyper4k.Server.State.{
  hyper4k_ok, err_wrong_state, err_client_gone, Delivery, buffered, Shared, Thread,
}
use hyper4k.Server.Respond.{hyper4k_respond}
use hyper4k.Server.Stream.{
  hyper4k_response_begin, hyper4k_response_write, hyper4k_response_finish, returns,
}
use hyper4k.Server.Handle.{leave_callback, build_response}
use hyper4k.Server.Laws.{streaming-exclusive}
use hyper4k.Server.Lost.{Answered, second_response-lost, begin_after_response}

abbrev lenient : HeaderRules
lenient = record {
  name_from_bytes = λ n. some n;
  value_from_bytes = λ v. some v;
  to_str = λ v. some v;
}

-- Request 1 waits for its answer.
abbrev waiting : Shared
waiting = record {
  next_responder_id = 2;
  pending = (1, tt) ∷ [];
  receivers = (1, none) ∷ [];
  active = [];
  channels = [];
  next_channel = 1;
}

-- Request 1 streams on channel 1.
abbrev streaming : Shared
streaming = record waiting {
  active = (1, 1) ∷ [];
  channels = (1, record { queue = []; receiving = true }) ∷ [];
  next_channel = 2;
}

abbrev elsewhere : Thread
elsewhere = record { in_callback = 0; sync_response = none }

abbrev first_answer : Delivery
first_answer = buffered (record { status = 200; headers = []; body = [] })

-- The callback of request 1 has answered already.
abbrev answered : Thread
answered = record { in_callback = 1; sync_response = some first_answer }

streaming-exclusive_example :
    let done = (hyper4k_response_finish streaming 1).0 in
    (hyper4k_respond lenient streaming elsewhere 1 200 none none
      ≡ (streaming, elsewhere, err_wrong_state))
    × (hyper4k_response_begin lenient streaming elsewhere 1 200 none
        ≡ (streaming, elsewhere, err_wrong_state))
    × ((hyper4k_response_finish streaming 1).1 ≡ hyper4k_ok)
    × ((j : ℕ) → (1 == j) ≡ false → lookup j done.active ≡ lookup j streaming.active)
    × (hyper4k_response_finish done 1 ≡ (done, err_wrong_state))
    × (hyper4k_response_write done false 1 2 none ≡ (done, returns err_wrong_state))
unfolding lookup
streaming-exclusive_example =
    streaming-exclusive lenient streaming elsewhere 1 200 2 none none false refl refl

answered-Answered : Answered waiting answered 1 first_answer
unfolding lookup
answered-Answered = record {
  nonzero = refl;
  inside = refl;
  parked = refl;
  registered = refl;
  awaited = refl;
  idle = refl;
}

second_response-lost_example :
    let (g', t', r) = hyper4k_respond lenient waiting answered 1 404 none none in
    (r ≡ hyper4k_ok)
    × (t' ≡ answered)
    × ((leave_callback (λ s. true) g' t' 1).2 ≡ some (build_response (λ s. true) g' first_answer).1)
second_response-lost_example =
    second_response-lost lenient (λ s. true) waiting answered 1 404 none none first_answer
      answered-Answered

begin_after_response_example :
    let (g', t', r) = hyper4k_response_begin lenient waiting answered 1 200 none in
    (r ≡ hyper4k_ok)
    × (contains 1 g'.active ≡ true)
    × (hyper4k_response_write g' false 1 2 (some (104 ∷ 105 ∷ [])) ≡ (g', returns err_client_gone))
begin_after_response_example =
    begin_after_response lenient waiting answered 1 200 2 none first_answer (104 ∷ 105 ∷ []) false
      answered-Answered refl
