-- ===== src/Server/Handle.antt =====
-- lib/src/lib.rs: `handle`, in its parts before, around and after the callback.
use hyper4k.Prelude.{
  ℕ, ◌*◌, Bool, Option, none, some, [], if◌then◌else◌, leb, lookup, contains, codes,
}
use hyper4k.Headers.{Bytes, HeaderMap}
use hyper4k.Server.State.{
  Delivery, buffered, stream, Shared, Thread, drop_delivery, take_sync_response, register_response,
  unregister,
}

abbrev pub max_request_body_bytes : ℕ
max_request_body_bytes = 16 * 1024 * 1024

pub data Hyper4kBody : Type 0 where
  full : Bytes → Hyper4kBody
  streams : ℕ → Hyper4kBody

pub record Response : Type 0 where
  pub status : ℕ
  pub headers : HeaderMap
  pub body : Hyper4kBody

unfoldable pub error_response : ℕ → Bytes → Response
error_response status message = record { status = status; headers = []; body = full message }

-- What a delivery asks for.
unfoldable pub of_delivery : Delivery → Response
of_delivery (buffered d) = record { status = d.status; headers = d.headers; body = full d.body }
of_delivery (stream st) = record { status = st.status; headers = st.headers; body = streams st.rx }

-- `valid` is hyper's rule for a status; without it the builder fails and the body is dropped.
unfoldable pub build_response : (ℕ → Bool) → Shared → Delivery → Shared × Response
build_response valid g d =
    let r = of_delivery d in
    if valid r.status
    then (g, r)
    else (drop_delivery g d, error_response 500 (codes "hyper4k: bad response"))

-- Up to the call of the callback: a body over the limit is answered at once, any other request is
-- registered and its responder is marked on the thread.
pub data Entered : Type 0 where
  rejected : Response → Entered
  calling : ℕ → Entered

unfoldable pub enter_handle : Shared → Thread → ℕ → Shared × Thread × Entered
enter_handle g t body_len =
    if leb body_len max_request_body_bytes
    then (let (g', id) = register_response g in (g', record t { in_callback = id }, calling id))
    else (g, t, rejected (error_response 413 (codes "hyper4k: request body too large")))

-- When the callback has returned.
unfoldable pub leave_callback : (ℕ → Bool) → Shared → Thread → ℕ → Shared × Thread × Option Response
leave_callback valid g t id =
    let (t', slot) = take_sync_response (record t { in_callback = 0 }) in
    elim slot [
      | none ↦ (g, t', none)
      | some d ↦ let (g', r) = build_response valid g d in (unregister g' id, t', some r)
    ]

-- `rx.await`, polled: the delivery, an error once the sender is gone, or not yet.
unfoldable pub await_response : (ℕ → Bool) → Shared → ℕ → Shared × Option Response
await_response valid g id = elim (lookup id g.receivers) [
  | none ↦ (g, none)
  | some o ↦ elim o [
    | some d ↦ let (g', r) = build_response valid g d in (unregister g' id, some r)
    | none ↦ if contains id g.pending then (g, none) else (
      unregister g id,
      some (error_response 500 (codes "hyper4k: handler dropped responder")),
    )
  ]
]
