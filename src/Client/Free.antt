-- ===== src/Client/Free.antt =====
-- lib/src/client/handle.rs: `hyper4k_client_free`, with the `BridgeCounter` of bridge.rs that it waits
-- for, on the table of requests.
pub mod Table
pub mod Tended
pub mod Keeping
pub mod Waiting
pub mod Ending
pub mod Examples
use hyper4k.Prelude.{
  is_some, ℕ, if◌then◌else◌, Option, none, some, List, [], ◌∷◌, ◌++◌, ◌==◌, lookup, insert,
}
use hyper4k.Options.{Hyper4kClientRequest}
use hyper4k.Bridge.State.{Callbacks, Slot, leave}
use hyper4k.Bridge.Ops.{Op, works, step}
use hyper4k.Client.Setup.{Client}
use hyper4k.Client.Requests.{RequestTemplate, submit, cleanup, hyper4k_client_close}

-- What happens on a client: a call of `send` gets past its checks, something happens to a request, or
-- `close` is called.
pub data Event : Type 0 where
  submits : Hyper4kClientRequest → RequestTemplate → Event
  on : ℕ → Op → Event
  closes : Event

-- What is torn down, in order.
pub data Teardown : Type 0 where
  shuts_pool shuts_tls_pool drops_runtime stops_executor : Teardown

unfoldable pub teardown : Client → List Teardown
teardown c =
    shuts_pool ∷ (if is_some c.tls_pool then shuts_tls_pool ∷ [] else [])
    ++ drops_runtime ∷ stops_executor ∷ []

module _ (cb : ℕ → Callbacks) (reserved : ℕ → ℕ) where
  -- The bridge has called `OnDone` if the request is now finished: its closure runs, then the bridge
  -- leaves the counter.
  unfoldable pub settled : Client → ℕ → Slot → Client
  settled c id t =
      if t.finished_flag
      then record (cleanup c id (reserved id)) { bridges = leave c.bridges }
      else record c { requests = insert id t c.requests }

  unfoldable pub on_request : Client → ℕ → Op → Client
  on_request c id op = elim (lookup id c.requests) [
    | none ↦ c
    | some s ↦ settled c id (step (cb id) s op)
  ]

  unfoldable pub happen : Client → Event → Client
  happen c (submits r template) = (submit c r template).client
  happen c (on id op) = on_request c id op
  happen c closes = hyper4k_client_close c

  unfoldable pub happens : Client → List Event → Client
  happens c [] = c
  happens c (e ∷ es) = happens (happen c e) es

  -- `BridgeCounter::wait_zero`, while the workers take the turns of a list, each for a request; `none`
  -- if it still waits after them.
  unfoldable pub wait_zero : Client → List ℕ → Option Client
  wait_zero c [] = if c.bridges == 0 then some c else none
  wait_zero c (id ∷ ids) =
      let rest = wait_zero (on_request c id works) ids in if c.bridges == 0 then some c else rest

  unfoldable pub hyper4k_client_free : Client → List ℕ → Option (Client × List Teardown)
  hyper4k_client_free c ids = elim (wait_zero (hyper4k_client_close c) ids) [
    | none ↦ none
    | some d ↦ some (d, teardown d)
  ]
