-- ===== src/Client/Attempts/Settled.antt =====
-- lib/src/client/handle.rs: a task that returns leaves a settled request, and it does return.
use hyper4k.Prelude.{ℕ, ◌-◌, ◌≡◌, ◌≢◌, Bool, true, false, none, List, [], ◌∷◌, String, arith}
use hyper4k.Abi.{
  Hyper4kErrorKind, err_connect, err_timeout, err_idle_timeout, err_truncated, err_outcome_unknown,
}
use hyper4k.Retry.{Method, is_idempotent}
use hyper4k.Bridge.State.{
  Bytes, Event, chunk, headers, Callbacks, Slot, is_terminal, bind_connection,
}
use hyper4k.Bridge.Slice.{settle_slot}
use hyper4k.Bridge.Ops.{Sent, send, step}
use hyper4k.Client.Attempts.{
  Other, as_op, meanwhile, await_send, Next, data_frame, trailers, broken, idle, ended, Arrival,
  RequestPolicy, Ends, returned, settle, read_body, Reply, connect_failed, closed_on_arrival,
  cannot_build, failed, answered, Attempt, Wire, Task, deliver_response, attempt_loop, run_request,
}

settle-terminal :
    (s : Slot) (kind : Hyper4kErrorKind) (message : String) (discard : Bool)
    → is_terminal (settle s kind message discard).state ≡ true
unfolding settle settle_slot is_terminal
settle-terminal s kind message discard = ground arith

await_send-refused :
    (cb : Callbacks) (s : Slot) (ev : Event) (os : List Other)
    → (await_send cb s ev os).1 ≡ Sent.refused
    → is_terminal (await_send cb s ev os).0.state ≡ true
unfolding await_send send
await_send-refused cb s ev [] h = ground arith
await_send-refused cb s ev (o ∷ os) h =
    let ih = await_send-refused cb (step cb s (as_op o)) ev os in ground arith

-- A computation that ends in `returned` leaves a settled request.
abbrev Closes : Slot × Ends → Type 0
Closes (s, e) = e ≡ returned → is_terminal s.state ≡ true

read_body-frame :
    (cb : Callbacks) (limit : Bool) (s : Slot) (before : List Other) (n : Next)
    (rest : List Arrival)
    → ((u : Slot) → Closes (read_body cb limit u rest))
    → Closes (read_body cb limit s (record { before = before; next = n } ∷ rest))
unfolding read_body
read_body-frame cb limit s before (data_frame b os) rest ih h =
    let t = meanwhile cb s before in
    let (u, sent) = await_send cb t (chunk b) os in
    let skipped = ih t in
    let went_on = ih u in let refused = await_send-refused cb t (chunk b) os in ground arith
read_body-frame cb limit s before trailers rest ih h = ih (meanwhile cb s before) h
read_body-frame cb limit s before broken rest ih h = settle-terminal _ _ _ _
read_body-frame cb limit s before idle rest ih h =
    let skipped = ih (meanwhile cb s before) in
    let settled =
      settle-terminal (meanwhile cb s before) err_idle_timeout "idle timeout between chunks" true in
    ground arith
read_body-frame cb limit s before ended rest ih h = settle-terminal _ _ _ _

read_body-returned :
    (cb : Callbacks) (limit : Bool) (s : Slot) (arrivals : List Arrival)
    → Closes (read_body cb limit s arrivals)
read_body-returned cb limit s [] h = unfold read_body in ground arith
read_body-returned cb limit s (a ∷ rest) h =
    read_body-frame cb limit s a.before a.next rest (λ u. read_body-returned cb limit u rest) h

deliver_response-returned :
    (cb : Callbacks) (policy : RequestPolicy) (s : Slot) (status version : ℕ)
    (hs : List (Bytes × Bytes)) (os : List Other) (arrivals : List Arrival)
    → Closes (deliver_response cb policy s status version hs os arrivals)
unfolding deliver_response
deliver_response-returned cb policy s status version hs os arrivals h =
    let refused = await_send-refused cb s (headers status version hs) os in
    let t = (await_send cb s (headers status version hs) os).0 in
    let limited = read_body-returned cb true t arrivals in
    let unlimited = read_body-returned cb false t arrivals in ground arith

abbrev Settles : Task → Type 0
Settles r = r.ends ≡ returned → is_terminal r.slot.state ≡ true

attempt_loop-attempt :
    (cb : Callbacks) (policy : RequestPolicy) (idempotent : Bool) (budget : ℕ) (s : Slot)
    (wire : List Wire) (acquiring : List Other) (entry : ℕ) (sending : List Other) (reply : Reply)
    (rest : List Attempt)
    → ((u : Slot) (calls : List Wire)
        → Settles (attempt_loop cb policy idempotent (budget - 1) u calls rest))
    → Settles (
        attempt_loop cb policy idempotent budget s wire (
          record { acquiring = acquiring; entry = entry; sending = sending; reply = reply } ∷ rest))
unfolding attempt_loop
attempt_loop-attempt cb policy idempotent budget s wire acquiring entry sending reply rest ih =
    go reply
  where
    t : Slot
    t = meanwhile cb s acquiring

    bound : Slot
    bound = record t { state = bind_connection t.state entry }

    u : Slot
    u = meanwhile cb bound sending

    go :
        (r : Reply)
        → Settles (
            attempt_loop cb policy idempotent budget s wire (
              record { acquiring = acquiring; entry = entry; sending = sending; reply = r } ∷ rest))
    go (connect_failed kind) h = settle-terminal _ _ _ _
    go closed_on_arrival h =
        let again = ih t wire in
        let settled = settle-terminal t err_connect "no live connection" true in ground arith
    go cannot_build h = settle-terminal _ _ _ _
    go (failed unsent) h =
        let calls = record { committed = bound.state.committed; provably_unsent = unsent } ∷ wire in
        let again = ih u calls in
        let truncated = settle-terminal u err_truncated "send failed" true in
        let unknown = settle-terminal u err_outcome_unknown "send failed" true in ground arith
    go (answered status version hs os arrivals) h =
        deliver_response-returned cb policy u status version hs os arrivals h

attempt_loop-returned :
    (cb : Callbacks) (policy : RequestPolicy) (idempotent : Bool) (budget : ℕ) (s : Slot)
    (wire : List Wire) (attempts : List Attempt)
    → Settles (attempt_loop cb policy idempotent budget s wire attempts)
attempt_loop-returned cb policy idempotent budget s wire [] h = unfold attempt_loop in ground arith
attempt_loop-returned cb policy idempotent budget s wire (a ∷ rest) h =
    attempt_loop-attempt cb policy idempotent budget s wire a.acquiring a.entry a.sending a.reply
      rest (λ u calls. attempt_loop-returned cb policy idempotent (budget - 1) u calls rest) h

-- A task that has returned leaves a settled request: every return of `attempt_loop` and
-- `deliver_response` settles, or was caused by an earlier settlement. With a request timeout every
-- task returns, so whatever happens the request is settled.
pub run_request-settles :
    (cb : Callbacks) (policy : RequestPolicy) (method : Method) (s : Slot) (attempts : List Attempt)
    → let r = run_request cb policy method s attempts in
      (r.ends ≡ returned → is_terminal r.slot.state ≡ true)
      × (policy.request_timeout ≢ none → r.ends ≡ returned)
unfolding run_request
run_request-settles cb policy method s attempts =
    let r = attempt_loop cb policy (is_idempotent method) policy.max_retries s [] attempts in
    let done =
      attempt_loop-returned cb policy (is_idempotent method) policy.max_retries s [] attempts in
    let timed_out = settle-terminal r.slot err_timeout "request timeout" true in
    (ground arith, ground arith)
