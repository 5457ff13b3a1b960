-- ===== src/Client/Attempts.antt =====
-- lib/src/client/handle.rs: `run_request`, `attempt_loop` and `deliver_response`, against a script
-- of what the connections answer and what other threads do to the request meanwhile.
pub mod Replays
pub mod Settled
pub mod Keeps
pub mod Completes
use hyper4k.Prelude.{
  ℕ, ◌-◌, Bool, true, false, Option, none, some, List, [], ◌∷◌, String, if◌then◌else◌, ◌==◌,
  is_empty,
}
use hyper4k.Abi.{
  Hyper4kErrorKind, err_none, err_connect, err_protocol, err_timeout, err_idle_timeout,
  err_truncated, err_outcome_unknown,
}
use hyper4k.Retry.{Method, is_idempotent, may_retry}
use hyper4k.Bridge.State.{Bytes, Event, headers, chunk, Terminal, Callbacks, Slot, bind_connection}
use hyper4k.Bridge.Slice.{settle_slot}
use hyper4k.Bridge.Ops.{Sent, waiting, send, Op, settles, resumes, cancels, works, step}

-- What happens to the request while its task awaits something.
pub data Other : Type 0 where
  settled_by : Terminal → Bool → Other
  resumed cancelled worked : Other

abbrev pub as_op : Other → Op
as_op (settled_by t discard) = settles t discard
as_op resumed = resumes
as_op cancelled = cancels
as_op worked = works

unfoldable pub meanwhile : Callbacks → Slot → List Other → Slot
meanwhile cb s [] = s
meanwhile cb s (o ∷ os) = meanwhile cb (step cb s (as_op o)) os

-- `sink.send(..).await`: it is tried again after each thing that happens, as long as there is no
-- room.
unfoldable pub await_send : Callbacks → Slot → Event → List Other → Slot × Sent
await_send cb s ev [] = send s ev
await_send cb s ev (o ∷ os) = elim (send s ev).1 [
  | waiting ↦ await_send cb (step cb s (as_op o)) ev os
  | _ ↦ send s ev
]

-- What awaiting the next frame comes to. A frame without data is a trailer; `idle` is the idle
-- timeout. With data comes what happens while the chunk waits for room.
pub data Next : Type 0 where
  data_frame : Bytes → List Other → Next
  trailers broken idle ended : Next

pub record Arrival : Type 0 where
  pub before : List Other
  pub next : Next

pub record RequestPolicy : Type 0 where
  pub max_retries : ℕ
  pub request_timeout : Option ℕ
  pub read_idle_timeout : Option ℕ

-- The task has returned, or it awaits a connection, room in the queue, or a frame.
pub data Ends : Type 0 where
  returned acquires awaits_room awaits_frame : Ends

unfoldable pub settle : Slot → Hyper4kErrorKind → String → Bool → Slot
settle s kind message discard =
    settle_slot s (record { kind = kind; protocol_code = 0; message = message }) discard

-- After `sink.send` the function goes on only if the event was queued.
abbrev pub ends_at : Sent → Ends
ends_at waiting = awaits_room
ends_at _ = returned

unfoldable pub read_body : Callbacks → Bool → Slot → List Arrival → Slot × Ends
read_body cb idle_limit s [] = (s, awaits_frame)
read_body cb idle_limit s (a ∷ rest) =
    let t = meanwhile cb s a.before in
    elim a.next [
      | data_frame b os ↦ elim (is_empty b) [
        | true ↦ read_body cb idle_limit t rest
        | false ↦
            let (u, sent) = await_send cb t (chunk b) os in
            elim sent [
              | Sent.queued ↦ read_body cb idle_limit u rest
              | Sent.waiting ↦ (u, awaits_room)
              | Sent.refused ↦ (u, returned)
            ]
      ]
      | trailers ↦ read_body cb idle_limit t rest
      | broken ↦ (settle t err_truncated "response truncated" true, returned)
      | idle ↦ elim idle_limit [
        | true ↦ (settle t err_idle_timeout "idle timeout between chunks" true, returned)
        | false ↦ read_body cb idle_limit t rest
      ]
      | ended ↦ (settle t err_none "" false, returned)
    ]

-- What an attempt meets: an error from the pool, a connection that is already closed, a request
-- that cannot be built, a failed send that is provably unsent or not, or an answer.
pub data Reply : Type 0 where
  connect_failed : Hyper4kErrorKind → Reply
  closed_on_arrival cannot_build : Reply
  failed : Bool → Reply
  answered : (status version : ℕ) → List (Bytes × Bytes) → List Other → List Arrival → Reply

pub record Attempt : Type 0 where
  pub acquiring : List Other
  pub entry : ℕ
  pub sending : List Other
  pub reply : Reply

-- A call of `try_send_request`: whether the response was committed when it was made, and whether
-- the request is provably unsent.
pub record Wire : Type 0 where
  pub committed : Bool
  pub provably_unsent : Bool

-- `wire` has the calls made so far, newest first.
pub record Task : Type 0 where
  pub slot : Slot
  pub wire : List Wire
  pub ends : Ends

unfoldable pub deliver_response :
    Callbacks
    → RequestPolicy
    → Slot
    → ℕ
    → ℕ
    → List (Bytes × Bytes)
    → List Other
    → List Arrival
    → Slot × Ends
deliver_response cb policy s status version hs os arrivals =
    let (t, sent) = await_send cb s (headers status version hs) os in
    elim sent [
      | Sent.queued ↦
          read_body cb (elim policy.read_idle_timeout [ none ↦ false | some d ↦ true ]) t arrivals
      | Sent.waiting ↦ (t, awaits_room)
      | Sent.refused ↦ (t, returned)
    ]

abbrev send_failed : Bool → Hyper4kErrorKind
send_failed committed = if committed then err_truncated else err_outcome_unknown

unfoldable pub attempt_loop :
    Callbacks → RequestPolicy → Bool → ℕ → Slot → List Wire → List Attempt → Task
attempt_loop cb policy idempotent budget s wire [] = record {
  slot = s;
  wire = wire;
  ends = acquires;
}
attempt_loop cb policy idempotent budget s wire (a ∷ rest) =
    let t = meanwhile cb s a.acquiring in
    let bound = record t { state = bind_connection t.state a.entry } in
    let u = meanwhile cb bound a.sending in
    elim a.reply [
      | connect_failed kind ↦ record {
        slot = settle t kind "connect failed" true;
        wire = wire;
        ends = returned;
      }
      | closed_on_arrival ↦ elim (budget == 0) [
        | false ↦ attempt_loop cb policy idempotent (budget - 1) t wire rest
        | true ↦ record {
          slot = settle t err_connect "no live connection" true;
          wire = wire;
          ends = returned;
        }
      ]
      | cannot_build ↦ record {
        slot = settle bound err_protocol "request could not be built" true;
        wire = wire;
        ends = returned;
      }
      | failed unsent ↦
          let calls =
            record { committed = bound.state.committed; provably_unsent = unsent } ∷ wire in
          elim (may_retry u.state.committed unsent idempotent budget) [
            | true ↦ attempt_loop cb policy idempotent (budget - 1) u calls rest
            | false ↦ record {
              slot = settle u (send_failed u.state.committed) "send failed" true;
              wire = calls;
              ends = returned;
            }
          ]
      | answered status version hs os arrivals ↦
          let (v, e) = deliver_response cb policy u status version hs os arrivals in
          record {
            slot = v;
            wire = record { committed = bound.state.committed; provably_unsent = false } ∷ wire;
            ends = e;
          }
    ]

-- With a request timeout, a task that has not returned when the script ends is dropped where it
-- waits.
unfoldable pub run_request : Callbacks → RequestPolicy → Method → Slot → List Attempt → Task
run_request cb policy method s attempts =
    let r = attempt_loop cb policy (is_idempotent method) policy.max_retries s [] attempts in
    elim policy.request_timeout [
      | none ↦ r
      | some d ↦ elim r.ends [
        | returned ↦ r
        | _ ↦ record r { slot = settle r.slot err_timeout "request timeout" true; ends = returned }
      ]
    ]
