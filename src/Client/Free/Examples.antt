-- ===== src/Client/Free/Examples.antt =====
-- lib/src/client/handle.rs: a client with two requests that is freed.
use hyper4k.Prelude.{ℕ, ◌≡◌, refl, none, List, [], ◌∷◌, codes, arith, false, lookup, insert, remove}
use hyper4k.Retry.{get}
use hyper4k.Options.{default_options, default_request}
use hyper4k.Bridge.State.{Callbacks, headers, spawn, enter, leave}
use hyper4k.Bridge.Slice.{
  settle_slot, cancel, run_slice, run_owned, after_rounds, rounds, round, wind_up,
}
use hyper4k.Bridge.Ops.{sends, cancels, step, push, send, work}
use hyper4k.Bridge.Examples.{consumer, consumer-Flows}
use hyper4k.Client.Limits.{new, try_reserve}
use hyper4k.Client.Setup.{Client, build_client}
use hyper4k.Client.Requests.{RequestTemplate, submit, cleanup, hyper4k_client_close}
use hyper4k.Client.Free.{
  Event, submits, on, settled, on_request, happen, happens, wait_zero, hyper4k_client_free,
}
use hyper4k.Client.Free.Ending.{WaitEnds, free-WaitEnds}

abbrev client : Client
client = build_client (default_options 88) none none

abbrev template : RequestTemplate
template = record {
  method = get;
  uri = record {
    scheme = none;
    authority = none;
    host = none;
    port = none;
    path = codes "/";
    query = none;
  };
  headers = [];
  body = [];
  host = codes "a";
  port = 80;
  https = false;
  absolute_form = false;
}

-- The headers of the first response have arrived, and the second request is cancelled.
abbrev events : List Event
events =
    submits (default_request 80) template
    ∷ submits (default_request 80) template
    ∷ on 1 (sends (headers 200 11 []))
    ∷ on 2 cancels
    ∷ []

abbrev consumers : ℕ → Callbacks
consumers id = consumer

abbrev nothing_reserved : ℕ → ℕ
nothing_reserved id = 0

abbrev used : Client
used = happens consumers nothing_reserved client events

free-WaitEnds_example : WaitEnds (hyper4k_client_free consumers nothing_reserved used (2 ∷ 1 ∷ []))
unfolding happens happen on_request settled submit try_reserve new default_options lookup insert
    remove step send spawn push cancel
free-WaitEnds_example =
    free-WaitEnds consumers (λ id. consumer-Flows) nothing_reserved client events 1 (2 ∷ 1 ∷ [])
      refl refl (omega arith) (omega arith) (omega arith) (omega arith)
      (omega arith, (omega arith, tt))

-- The bridge of the first request has not been run: the call still waits.
still_waits : hyper4k_client_free consumers nothing_reserved used (2 ∷ 2 ∷ []) ≡ none
unfolding happens happen on_request settled submit try_reserve new default_options lookup insert
    remove step send spawn push cancel hyper4k_client_free wait_zero hyper4k_client_close
    settle_slot work run_slice run_owned after_rounds rounds round wind_up cleanup enter leave
still_waits = refl
