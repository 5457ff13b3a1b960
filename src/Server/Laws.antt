-- ===== src/Server/Laws.antt =====
-- lib/src/lib.rs: what responding, streaming and finishing do to the tables.
use hyper4k.Prelude.{
  ℕ, ℤ, ◌≡◌, ◌≢◌, refl, Bool, true, false, Option, none, some, List, arith, ◌==◌, lookup, remove,
  insert, contains, lookup-insert, lookup-remove, ==_refl, ◌⊎◌,
}
use hyper4k.Headers.{Bytes, HeaderRules, parse_headers}
use hyper4k.Server.State.{
  hyper4k_ok, hyper4k_failed, err_wrong_state, Delivery, buffered, stream, Shared, Thread,
  drop_delivery, close_channel,
}
use hyper4k.Server.Respond.{
  send_once, deliver_through_channel, deliver_response, hyper4k_respond, slot_busy,
}
use hyper4k.Server.Stream.{
  open_channel, begin_stream, hyper4k_response_begin, returns, hyper4k_response_write,
  hyper4k_response_finish, sender_of,
}

-- Dropping a delivery touches channels only.
pub drop_delivery-keeps :
    (g : Shared) (d : Delivery)
    → ((drop_delivery g d).pending ≡ g.pending)
      × ((drop_delivery g d).receivers ≡ g.receivers)
      × ((drop_delivery g d).active ≡ g.active)
      × ((drop_delivery g d).next_responder_id ≡ g.next_responder_id)
unfolding drop_delivery
drop_delivery-keeps g (buffered d) = (refl, refl, refl, refl)
drop_delivery-keeps g (stream st) = unfold close_channel in ground arith

-- A delivery through the channel reaches the receiver of its own responder, and no other.
pub record Reaches (responder : ℕ) (d : Delivery) (g g' : Shared) (r : ℤ) : Type 0 where
  pub delivered : r ≡ hyper4k_ok → lookup responder g'.receivers ≡ some (some d)
  pub missed : r ≢ hyper4k_ok → lookup responder g'.receivers ≡ lookup responder g.receivers
  pub others : (j : ℕ) → (responder == j) ≡ false → lookup j g'.receivers ≡ lookup j g.receivers
  pub used : lookup responder g'.pending ≡ none
  pub others_pending : (j : ℕ) → (responder == j) ≡ false → lookup j g'.pending ≡ lookup j g.pending
  pub streams : g'.active ≡ g.active
  pub result : (r ≡ hyper4k_ok) ⊎ (r ≡ hyper4k_failed)

deliver_through_channel-Reaches :
    (g : Shared) (responder : ℕ) (d : Delivery)
    → Reaches responder d g
        (deliver_through_channel g responder d).0
        (deliver_through_channel g responder d).1
unfolding deliver_through_channel send_once
deliver_through_channel-Reaches g responder d = record {
  delivered =
      ground (arith, lookup-insert responder responder (some d) g.receivers, ==_refl responder);
  missed = ground (arith, drop_delivery-keeps g d, drop_delivery-keeps g₁ d);
  others = λ j h. ground (
    arith,
    lookup-insert responder j (some d) g.receivers,
    drop_delivery-keeps g d,
    drop_delivery-keeps g₁ d,
  );
  used = ground (
    arith,
    lookup-remove responder responder g.pending,
    ==_refl responder,
    drop_delivery-keeps g d,
    drop_delivery-keeps g₁ d,
  );
  others_pending = λ j h. ground (
    arith,
    lookup-remove responder j g.pending,
    drop_delivery-keeps g d,
    drop_delivery-keeps g₁ d,
  );
  streams = ground (arith, drop_delivery-keeps g d, drop_delivery-keeps g₁ d);
  result = ground arith;
}
  where
    g₁ : Shared
    g₁ = record g { pending = remove responder g.pending }

-- On a thread that is not inside the callback of this responder.
pub deliver_response-foreign :
    (g : Shared) (t : Thread) (responder : ℕ) (d : Delivery)
    → (t.in_callback == responder) ≡ false
    → deliver_response g t responder d
      ≡ ((deliver_through_channel g responder d).0, t, (deliver_through_channel g responder d).1)
unfolding deliver_response
deliver_response-foreign g t responder d h = rw h

deliver_response-active :
    (g : Shared) (t : Thread) (responder : ℕ) (d : Delivery)
    → (deliver_response g t responder d).0.active ≡ g.active
unfolding deliver_response
deliver_response-active g t responder d = ground (
  arith,
  drop_delivery-keeps g d,
  (deliver_through_channel-Reaches g responder d).streams,
  (deliver_through_channel-Reaches (drop_delivery g d) responder slot_busy).streams,
)

-- Whatever `begin` answers, no other responder's stream is touched; it answers OK or WRONG_STATE;
-- after OK the responder is streaming, and after WRONG_STATE it streams exactly if it did before.
pub begin-active :
    (h : HeaderRules) (g : Shared) (t : Thread) (responder status : ℕ) (headers : Option Bytes)
    → let (g', t', r) = hyper4k_response_begin h g t responder status headers in
      ((j : ℕ) → (responder == j) ≡ false → lookup j g'.active ≡ lookup j g.active)
      × (((r ≡ hyper4k_ok)
            × (contains responder g'.active ≡ true)
            × (contains responder g.active ≡ false))
          ⊎ ((r ≡ err_wrong_state) × (contains responder g'.active ≡ contains responder g.active)))
unfolding hyper4k_response_begin begin_stream open_channel
begin-active h g t responder status headers = (
  (λ j n. ground (
    arith,
    deliver_response-active g₂ t responder head,
    lookup-insert responder j g.next_channel g.active,
    lookup-remove responder j a,
  )),
  ground (
    arith,
    deliver_response-active g₂ t responder head,
    lookup-insert responder responder g.next_channel g.active,
    lookup-remove responder responder a,
    ==_refl responder,
  ),
)
  where
    g₂ : Shared
    g₂ = record (open_channel g).0 { active = insert responder g.next_channel g.active }

    head : Delivery
    head =
        stream (record { status = status; headers = parse_headers h headers; rx = g.next_channel })

    a : List (ℕ × ℕ)
    a = (deliver_response g₂ t responder head).0.active

-- While a responder streams, the one-shot answer and another `begin` are refused and change
-- nothing; `finish` ends the stream once, touching no other responder's; after it a write, and
-- another `finish`, are refused.
pub streaming-exclusive :
    (h : HeaderRules) (g : Shared) (t : Thread) (responder status len : ℕ)
    (headers body : Option Bytes) (on_runtime : Bool)
    → (responder == 0) ≡ false
    → contains responder g.active ≡ true
    → let done = (hyper4k_response_finish g responder).0 in
      (hyper4k_respond h g t responder status headers body ≡ (g, t, err_wrong_state))
      × (hyper4k_response_begin h g t responder status headers ≡ (g, t, err_wrong_state))
      × ((hyper4k_response_finish g responder).1 ≡ hyper4k_ok)
      × ((j : ℕ) → (responder == j) ≡ false → lookup j done.active ≡ lookup j g.active)
      × (hyper4k_response_finish done responder ≡ (done, err_wrong_state))
      × (hyper4k_response_write done on_runtime responder len body
          ≡ (done, returns err_wrong_state))
unfolding hyper4k_respond hyper4k_response_begin hyper4k_response_finish hyper4k_response_write
    sender_of
streaming-exclusive h g t responder status len headers body on_runtime nonzero streams = (
  ground arith,
  ground arith,
  ground arith,
  (λ j n. ground (arith, lookup-remove responder j g.active)),
  ground (arith, lookup-remove responder responder g.active, ==_refl responder),
  ground (arith, lookup-remove responder responder g.active, ==_refl responder),
)
