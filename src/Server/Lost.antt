-- ===== src/Server/Lost.antt =====
-- lib/src/lib.rs: a responder that is answered twice inside its own callback.
use hyper4k.Prelude.{
  ℕ, ◌≡◌, refl, Bool, true, false, Option, some, [], arith, ◌==◌, ==_refl, lookup, remove, insert,
  contains, lookup-insert_same,
}
use hyper4k.Headers.{Bytes, HeaderRules, parse_headers}
use hyper4k.Server.State.{
  hyper4k_ok, err_client_gone, Delivery, buffered, stream, Channel, Shared, Thread, drop_delivery,
  close_channel, set_sync_response, take_sync_response,
}
use hyper4k.Server.Respond.{
  send_once, deliver_through_channel, deliver_response, hyper4k_respond, to_body, slot_busy,
}
use hyper4k.Server.Stream.{
  open_channel, begin_stream, hyper4k_response_begin, returns, hyper4k_response_write, sender_of,
  write_chunk, send_chunk,
}
use hyper4k.Server.Handle.{build_response, leave_callback}
use hyper4k.Server.Laws.{drop_delivery-keeps}

-- The request of `responder` has been answered by `d` inside its callback on thread `t`.
pub record Answered (g : Shared) (t : Thread) (responder : ℕ) (d : Delivery) : Type 0 where
  pub nonzero : (responder == 0) ≡ false
  pub inside : t.in_callback ≡ responder
  pub parked : t.sync_response ≡ some d
  pub registered : contains responder g.pending ≡ true
  pub awaited : contains responder g.receivers ≡ true
  pub idle : contains responder g.active ≡ false

-- The state after a delivery that finds the slot taken.
abbrev again : Shared → ℕ → Delivery → Shared
again g responder x = record (drop_delivery g x) {
  pending = remove responder (drop_delivery g x).pending;
  receivers = insert responder (some slot_busy) (drop_delivery g x).receivers;
}

deliver_again :
    (g : Shared) (t : Thread) (responder : ℕ) (d x : Delivery)
    → t.in_callback ≡ responder
    → t.sync_response ≡ some d
    → contains responder g.pending ≡ true
    → contains responder g.receivers ≡ true
    → deliver_response g t responder x ≡ (again g responder x, t, hyper4k_ok)
unfolding deliver_response set_sync_response deliver_through_channel send_once
deliver_again g t responder d x inside parked registered awaited =
    ground (arith, drop_delivery-keeps g x, ==_refl responder)

leave_callback-parked :
    (valid : ℕ → Bool) (g : Shared) (t : Thread) (responder : ℕ) (d : Delivery)
    → t.sync_response ≡ some d
    → (leave_callback valid g t responder).2 ≡ some (build_response valid g d).1
unfolding leave_callback take_sync_response
leave_callback-parked valid g t responder d parked = ground arith

-- A second answer inside the callback reports that it was delivered, and is lost: the client gets
-- the first one.
pub second_response-lost :
    (h : HeaderRules) (valid : ℕ → Bool) (g : Shared) (t : Thread) (responder status : ℕ)
    (headers body : Option Bytes) (d : Delivery)
    → Answered g t responder d
    → let (g', t', r) = hyper4k_respond h g t responder status headers body in
      (r ≡ hyper4k_ok)
      × (t' ≡ t)
      × ((leave_callback valid g' t' responder).2 ≡ some (build_response valid g' d).1)
unfolding hyper4k_respond
second_response-lost h valid g t responder status headers body d v = rw v.nonzero (
    rw v.idle (
      rw (deliver_again g t responder d x v.inside v.parked v.registered v.awaited)
        (refl, refl, leave_callback-parked valid (again g responder x) t responder d v.parked)))
  where
    x : Delivery
    x =
        buffered
          (record { status = status; headers = parse_headers h headers; body = to_body body })

begin_again :
    (h : HeaderRules) (g : Shared) (t : Thread) (responder status : ℕ) (headers : Option Bytes)
    (d : Delivery)
    → Answered g t responder d
    → begin_stream g t responder status h headers ≡ (
      again
          (record (open_channel g).0 { active = insert responder g.next_channel g.active })
          responder
          (stream
            (record { status = status; headers = parse_headers h headers; rx = g.next_channel })),
      t,
      hyper4k_ok,
    )
unfolding begin_stream open_channel
begin_again h g t responder status headers d v =
    ground (arith, deliver_again g₂ t responder d head v.inside v.parked v.registered v.awaited)
  where
    g₂ : Shared
    g₂ = record (open_channel g).0 { active = insert responder g.next_channel g.active }

    head : Delivery
    head =
        stream (record { status = status; headers = parse_headers h headers; rx = g.next_channel })

-- A write on a channel whose receiver is gone.
closed_stream :
    (g : Shared) (on_runtime : Bool) (responder len : ℕ) (chunk : Bytes) {c : ℕ}
    → sender_of g responder ≡ some (c, record { queue = []; receiving = false })
    → (responder == 0) ≡ false
    → (len == 0) ≡ false
    → hyper4k_response_write g on_runtime responder len (some chunk) ≡ (g, returns err_client_gone)
unfolding hyper4k_response_write write_chunk send_chunk
closed_stream g on_runtime responder len chunk e n l = ground arith

sender_of_lem :
    (g : Shared) (responder : ℕ) {c : ℕ} {ch : Channel}
    → lookup responder g.active ≡ some c
    → lookup c g.channels ≡ some ch
    → sender_of g responder ≡ some (c, ch)
unfolding sender_of
sender_of_lem g responder e f = ground arith

close_channel-closes :
    (g : Shared) (c : ℕ) {ch : Channel}
    → lookup c g.channels ≡ some ch
    → lookup c (close_channel g c).channels ≡ some (record ch { receiving = false })
unfolding close_channel
close_channel-closes g c {ch = ch} e =
    ground (arith, lookup-insert_same c (record ch { receiving = false }) g.channels)

-- A `begin` after an answer inside the callback reports OK although the responder is completed: the
-- responder then counts as streaming, and every write with data finds the client gone.
pub begin_after_response :
    (h : HeaderRules) (g : Shared) (t : Thread) (responder status len : ℕ) (headers : Option Bytes)
    (d : Delivery) (chunk : Bytes) (on_runtime : Bool)
    → Answered g t responder d
    → (len == 0) ≡ false
    → let (g', t', r) = hyper4k_response_begin h g t responder status headers in
      (r ≡ hyper4k_ok)
      × (contains responder g'.active ≡ true)
      × (hyper4k_response_write g' on_runtime responder len (some chunk)
          ≡ (g', returns err_client_gone))
unfolding hyper4k_response_begin
begin_after_response h g t responder status len headers d chunk on_runtime v some_data =
    rw v.nonzero (
      rw v.idle (
        rw (begin_again h g t responder status headers d v) (
          refl,
          streaming,
          closed_stream (again g₂ responder head) on_runtime responder len chunk closed v.nonzero
              some_data,
        )))
  where
    g₂ : Shared
    g₂ = record (open_channel g).0 { active = insert responder g.next_channel g.active }

    head : Delivery
    head =
        stream (record { status = status; headers = parse_headers h headers; rx = g.next_channel })

    streams : lookup responder (again g₂ responder head).active ≡ some g.next_channel
    streams =
        ground
          (arith, drop_delivery-keeps g₂ head, lookup-insert_same responder g.next_channel g.active)

    opened : lookup g.next_channel g₂.channels ≡ some (record { queue = []; receiving = true })
    opened =
        unfold open_channel in
        lookup-insert_same g.next_channel (record { queue = []; receiving = true }) g.channels

    streaming : contains responder (again g₂ responder head).active ≡ true
    streaming = ground (arith, streams)

    closed :
        sender_of (again g₂ responder head) responder
        ≡ some (g.next_channel, record { queue = []; receiving = false })
    closed =
        unfold drop_delivery in
        sender_of_lem (again g₂ responder head) responder streams
          (close_channel-closes g₂ g.next_channel opened)
