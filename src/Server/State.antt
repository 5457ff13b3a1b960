-- ===== src/Server/State.antt =====
-- lib/src/lib.rs: return codes, deliveries, the tables of responders and streams, and the channels.
use hyper4k.Prelude.{
  ℕ, ℤ, pos, neg, ◌+◌, ◌%◌, ◌^◌, Bool, true, false, Option, none, some, List, if◌then◌else◌, ◌==◌,
  lookup, remove, insert,
}
use hyper4k.Headers.{Bytes, HeaderMap}

abbrev pub hyper4k_ok : ℤ
hyper4k_ok = pos 1

abbrev pub hyper4k_failed : ℤ
hyper4k_failed = pos 0

abbrev pub err_wrong_state : ℤ
err_wrong_state = neg 4

abbrev pub err_client_gone : ℤ
err_client_gone = neg 5

abbrev pub err_would_block : ℤ
err_would_block = neg 6

abbrev pub stream_channel_capacity : ℕ
stream_channel_capacity = 4

pub record ResponseData : Type 0 where
  pub status : ℕ
  pub headers : HeaderMap
  pub body : Bytes

-- `rx` is the channel whose receiver travels with the head of the stream.
pub record StreamStart : Type 0 where
  pub status : ℕ
  pub headers : HeaderMap
  pub rx : ℕ

pub data Delivery : Type 0 where
  buffered : ResponseData → Delivery
  stream : StreamStart → Delivery

-- `mpsc`: what was sent and not received, and whether the receiver still exists.
pub record Channel : Type 0 where
  pub queue : List Bytes
  pub receiving : Bool

-- `pending` has the responders with a sender in `PENDING_RESPONSES`. `receivers` has those whose
-- `oneshot` receiver exists, with what it was sent. `active` is `ACTIVE_STREAMS`.
pub record Shared : Type 0 where
  pub next_responder_id : ℕ
  pub pending : List (ℕ × Unit {0})
  pub receivers : List (ℕ × Option Delivery)
  pub active : List (ℕ × ℕ)
  pub channels : List (ℕ × Channel)
  pub next_channel : ℕ

-- The thread locals: the responder whose callback runs on this thread, or 0, and the slot.
pub record Thread : Type 0 where
  pub in_callback : ℕ
  pub sync_response : Option Delivery

-- A receiver is dropped.
unfoldable pub close_channel : Shared → ℕ → Shared
close_channel g c = elim (lookup c g.channels) [
  | none ↦ g
  | some ch ↦ record g { channels = insert c (record ch { receiving = false }) g.channels }
]

-- A delivery is dropped: with the head of a stream its receiver goes.
unfoldable pub drop_delivery : Shared → Delivery → Shared
unfolding close_channel
drop_delivery g (buffered d) = g
drop_delivery g (stream st) = close_channel g st.rx

unfoldable pub take_sync_response : Thread → Thread × Option Delivery
take_sync_response t = (record t { sync_response = none }, t.sync_response)

-- False if the slot is taken.
unfoldable pub set_sync_response : Thread → Delivery → Thread × Bool
set_sync_response t d = elim t.sync_response [
  | some _ ↦ (t, false)
  | none ↦ (record t { sync_response = some d }, true)
]

-- `fetch_add` on a `u64`, again if it gave 0; the second try gives 1.
unfoldable pub next_responder_id : Shared → Shared × ℕ
next_responder_id g =
    let id = g.next_responder_id in
    if id == 0
    then (record g { next_responder_id = 2 }, 1)
    else (record g { next_responder_id = (id + 1) % 2 ^ 64 }, id)

unfoldable pub register_response : Shared → Shared × ℕ
unfolding next_responder_id
register_response g =
    let (g', id) = next_responder_id g in
    (record g' { pending = insert id tt g'.pending; receivers = insert id none g'.receivers }, id)

-- `PendingResponse` is dropped, and with it the receiver that `handle` holds.
unfoldable pub unregister : Shared → ℕ → Shared
unregister g id = record g { pending = remove id g.pending; receivers = remove id g.receivers }
