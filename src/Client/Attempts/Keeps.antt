-- ===== src/Client/Attempts/Keeps.antt =====
-- lib/src/client/handle.rs: what the operations on a request keep, its task keeps.
use hyper4k.Prelude.{
  ℕ, ◌-◌, Bool, true, false, Option, none, some, List, [], ◌∷◌, String, ◌==◌, is_empty,
}
use hyper4k.Abi.{Hyper4kErrorKind, err_connect, err_timeout, err_idle_timeout}
use hyper4k.Retry.{Method, is_idempotent, may_retry}
use hyper4k.Bridge.State.{Bytes, Event, headers, chunk, Callbacks, Slot, bind_connection}
use hyper4k.Bridge.Ops.{Sent, waiting, send, Op, sends, settles, step}
use hyper4k.Client.Attempts.{
  Other, as_op, meanwhile, await_send, Next, data_frame, trailers, broken, idle, ended, Arrival,
  RequestPolicy, Ends, returned, acquires, awaits_room, awaits_frame, settle, read_body, Reply,
  connect_failed, closed_on_arrival, cannot_build, failed, answered, Attempt, Wire, Task,
  deliver_response, attempt_loop, run_request,
}

-- What every operation on a request keeps, and binding a connection, the task keeps.
module _ (cb : Callbacks) (P : Slot → Type 0)
    (steps : (s : Slot) (op : Op) → P s → P (step cb s op))
    (binds : (s : Slot) (entry : ℕ)
      → P s
      → P (record s { state = bind_connection s.state entry })) where
  settle-keeps :
      (s : Slot) (kind : Hyper4kErrorKind) (message : String) (discard : Bool)
      → P s
      → P (settle s kind message discard)
  unfolding settle step
  settle-keeps s kind message discard v = steps s (settles _ discard) v

  send-keeps : (s : Slot) (ev : Event) → P s → P (send s ev).0
  unfolding step
  send-keeps s ev v = steps s (sends ev) v

  meanwhile-keeps : (s : Slot) (os : List Other) → P s → P (meanwhile cb s os)
  unfolding meanwhile
  meanwhile-keeps s [] v = v
  meanwhile-keeps s (o ∷ os) v = meanwhile-keeps (step cb s (as_op o)) os (steps s (as_op o) v)

  await_send-keeps : (s : Slot) (ev : Event) (os : List Other) → P s → P (await_send cb s ev os).0
  unfolding await_send
  await_send-keeps s ev [] v = send-keeps s ev v
  await_send-keeps s ev (o ∷ os) v =
      go (send s ev).1 (await_send-keeps (step cb s (as_op o)) ev os (steps s (as_op o) v))
    where
      go :
          (r : Sent)
          → P (await_send cb (step cb s (as_op o)) ev os).0
          → P
              (elim r as (λ _. Slot × Sent) [
                | waiting ↦ await_send cb (step cb s (as_op o)) ev os
                | _ ↦ send s ev
              ]).0
      go Sent.waiting w = w
      go Sent.queued w = send-keeps s ev v
      go Sent.refused w = send-keeps s ev v

  read_body-keeps :
      (limit : Bool) (s : Slot) (arrivals : List Arrival)
      → P s
      → P (read_body cb limit s arrivals).0
  unfolding read_body
  read_body-keeps limit s [] v = v
  read_body-keeps limit s (a ∷ rest) v = go a.next (λ u w. read_body-keeps limit u rest w)
    where
      t : Slot
      t = meanwhile cb s a.before

      now : P t
      now = meanwhile-keeps s a.before v

      sends_on :
          (u : Slot) (r : Sent)
          → P u
          → P (read_body cb limit u rest).0
          → P
              (elim r as (λ _. Slot × Ends) [
                | Sent.queued ↦ read_body cb limit u rest
                | Sent.waiting ↦ (u, awaits_room)
                | Sent.refused ↦ (u, returned)
              ]).0
      sends_on u Sent.queued w ih = ih
      sends_on u Sent.waiting w ih = w
      sends_on u Sent.refused w ih = w

      either :
          (b : Bool) (x y : Slot × Ends)
          → P x.0
          → P y.0
          → P (elim b as (λ _. Slot × Ends) [ true ↦ x | false ↦ y ]).0
      either true x y v w = v
      either false x y v w = w

      go :
          (n : Next)
          → ((u : Slot) → P u → P (read_body cb limit u rest).0)
          → P (read_body cb limit s (record { before = a.before; next = n } ∷ rest)).0
      go (data_frame b os) ih =
          let u = (await_send cb t (chunk b) os).0 in
          let w = await_send-keeps t (chunk b) os now in
          either (is_empty b) (read_body cb limit t rest) _ (ih t now)
            (sends_on u (await_send cb t (chunk b) os).1 w (ih u w))
      go trailers ih = ih t now
      go broken ih = settle-keeps t _ _ _ now
      go idle ih =
          either limit (settle t err_idle_timeout "idle timeout between chunks" true, returned)
            (read_body cb limit t rest) (settle-keeps t _ _ _ now) (ih t now)
      go ended ih = settle-keeps t _ _ _ now

  deliver_response-keeps :
      (policy : RequestPolicy) (s : Slot) (status version : ℕ) (hs : List (Bytes × Bytes))
      (os : List Other) (arrivals : List Arrival)
      → P s
      → P (deliver_response cb policy s status version hs os arrivals).0
  unfolding deliver_response
  deliver_response-keeps policy s status version hs os arrivals v =
      go (await_send cb s (headers status version hs) os).1
    where
      t : Slot
      t = (await_send cb s (headers status version hs) os).0

      now : P t
      now = await_send-keeps s (headers status version hs) os v

      limit : Bool
      limit = elim policy.read_idle_timeout [ none ↦ false | some d ↦ true ]

      go :
          (r : Sent)
          → P
              (elim r as (λ _. Slot × Ends) [
                | Sent.queued ↦ read_body cb limit t arrivals
                | Sent.waiting ↦ (t, awaits_room)
                | Sent.refused ↦ (t, returned)
              ]).0
      go Sent.queued = read_body-keeps limit t arrivals now
      go Sent.waiting = now
      go Sent.refused = now

  attempt_loop-keeps :
      (policy : RequestPolicy) (idempotent : Bool) (budget : ℕ) (s : Slot) (wire : List Wire)
      (attempts : List Attempt)
      → P s
      → P (attempt_loop cb policy idempotent budget s wire attempts).slot
  unfolding attempt_loop
  attempt_loop-keeps policy idempotent budget s wire [] v = v
  attempt_loop-keeps policy idempotent budget s wire (a ∷ rest) v =
      go a.reply (λ u calls w. attempt_loop-keeps policy idempotent (budget - 1) u calls rest w)
    where
      t : Slot
      t = meanwhile cb s a.acquiring

      now : P t
      now = meanwhile-keeps s a.acquiring v

      bound : Slot
      bound = record t { state = bind_connection t.state a.entry }

      u : Slot
      u = meanwhile cb bound a.sending

      sent : P u
      sent = meanwhile-keeps bound a.sending (binds t a.entry now)

      either :
          (b : Bool) (x y : Task)
          → P x.slot
          → P y.slot
          → P (elim b as (λ _. Task) [ true ↦ x | false ↦ y ]).slot
      either true x y v w = v
      either false x y v w = w

      go :
          (r : Reply)
          → ((u : Slot) (calls : List Wire)
              → P u
              → P (attempt_loop cb policy idempotent (budget - 1) u calls rest).slot)
          → P
              (attempt_loop cb policy idempotent budget s wire (
                record { acquiring = a.acquiring; entry = a.entry; sending = a.sending; reply = r }
                ∷ rest)).slot
      go (connect_failed kind) ih = settle-keeps t _ _ _ now
      go closed_on_arrival ih =
          either (budget == 0) _ _ (settle-keeps t err_connect "no live connection" true now)
            (ih t wire now)
      go cannot_build ih = settle-keeps bound _ _ _ (binds t a.entry now)
      go (failed unsent) ih =
          either (may_retry u.state.committed unsent idempotent budget) _ _ (ih u _ sent)
            (settle-keeps u _ "send failed" true sent)
      go (answered status version hs os arrivals) ih =
          deliver_response-keeps policy u status version hs os arrivals sent

  pub run_request-keeps :
      (policy : RequestPolicy) (method : Method) (s : Slot) (attempts : List Attempt)
      → P s
      → P (run_request cb policy method s attempts).slot
  unfolding run_request
  run_request-keeps policy method s attempts v = go policy.request_timeout r.ends
    where
      r : Task
      r = attempt_loop cb policy (is_idempotent method) policy.max_retries s [] attempts

      now : P r.slot
      now = attempt_loop-keeps policy (is_idempotent method) policy.max_retries s [] attempts v

      timed_out : Task
      timed_out = record r {
        slot = settle r.slot err_timeout "request timeout" true;
        ends = returned;
      }

      go :
          (o : Option ℕ) (e : Ends)
          → P
              (elim o as (λ _. Task) [
                | none ↦ r
                | some d ↦ elim e as (λ _. Task) [ returned ↦ r | _ ↦ timed_out ]
              ]).slot
      go none e = now
      go (some d) returned = now
      go (some d) acquires = settle-keeps r.slot err_timeout "request timeout" true now
      go (some d) awaits_room = settle-keeps r.slot err_timeout "request timeout" true now
      go (some d) awaits_frame = settle-keeps r.slot err_timeout "request timeout" true now
