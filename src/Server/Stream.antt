-- ===== src/Server/Stream.antt =====
-- lib/src/lib.rs: `hyper4k_response_begin`, `_write` and `_finish`, and the body that hyper polls.
use hyper4k.Prelude.{
  ℕ, ℤ, ◌+◌, Bool, true, false, Option, none, some, List, [], ◌∷◌, ◌++◌, if◌then◌else◌, ◌==◌, leb,
  length, int_eq, lookup, remove, insert, contains,
}
use hyper4k.Headers.{Bytes, HeaderRules, parse_headers}
use hyper4k.Server.State.{
  hyper4k_ok, err_wrong_state, err_client_gone, err_would_block, stream_channel_capacity, stream,
  Channel, Shared, Thread,
}
use hyper4k.Server.Respond.{deliver_response}

-- `mpsc::channel`: a new channel, both ends alive.
unfoldable pub open_channel : Shared → Shared × ℕ
open_channel g =
    let c = g.next_channel in
    (
      record g {
        channels = insert c (record { queue = []; receiving = true }) g.channels;
        next_channel = c + 1;
      },
      c,
    )

-- The sender is registered before the head is delivered, and taken back if that fails.
unfoldable pub begin_stream :
    Shared → Thread → ℕ → ℕ → HeaderRules → Option Bytes → Shared × Thread × ℤ
begin_stream g t responder status h headers =
    let (g₁, c) = open_channel g in
    let g₂ = record g₁ { active = insert responder c g₁.active } in
    let head = stream (record { status = status; headers = parse_headers h headers; rx = c }) in
    let (g₃, t', delivered) = deliver_response g₂ t responder head in
    if int_eq delivered hyper4k_ok
    then (g₃, t', hyper4k_ok)
    else (record g₃ { active = remove responder g₃.active }, t', err_wrong_state)

-- The channel made for a call that is refused is dropped at once, both ends.
unfoldable pub hyper4k_response_begin :
    HeaderRules → Shared → Thread → ℕ → ℕ → Option Bytes → Shared × Thread × ℤ
hyper4k_response_begin h g t responder status headers =
    if responder == 0
    then (g, t, err_wrong_state)
    else if contains responder g.active
    then (g, t, err_wrong_state)
    else begin_stream g t responder status h headers

-- A call returns, or waits for room in the channel.
pub data Written : Type 0 where
  returns : ℤ → Written
  blocks : Written

-- `try_send`, and `blocking_send` off the engine's threads.
unfoldable pub send_chunk : Shared → Bool → ℕ → Channel → Bytes → Shared × Written
send_chunk g on_runtime c ch chunk =
    if ch.receiving
    then (if leb stream_channel_capacity (length ch.queue)
        then (g, if on_runtime then returns err_would_block else blocks)
        else (
          record g {
            channels = insert c (record ch { queue = ch.queue ++ chunk ∷ [] }) g.channels;
          },
          returns hyper4k_ok,
        ))
    else (g, returns err_client_gone)

-- The bytes are those that the pointer and the length give; `none` is a NULL pointer.
unfoldable pub write_chunk : Shared → Bool → ℕ → Channel → ℕ → Option Bytes → Shared × Written
write_chunk g on_runtime c ch len ptr = if len == 0 then (g, returns hyper4k_ok) else elim ptr [
  | none ↦ (g, returns err_wrong_state)
  | some chunk ↦ send_chunk g on_runtime c ch chunk
]

-- The channel behind an active responder.
unfoldable pub sender_of : Shared → ℕ → Option (ℕ × Channel)
sender_of g responder = elim (lookup responder g.active) [
  | none ↦ none
  | some c ↦ elim (lookup c g.channels) [ none ↦ none | some ch ↦ some (c, ch) ]
]

unfoldable pub hyper4k_response_write : Shared → Bool → ℕ → ℕ → Option Bytes → Shared × Written
hyper4k_response_write g on_runtime responder len ptr =
    if responder == 0 then (g, returns err_wrong_state) else elim (sender_of g responder) [
      | none ↦ (g, returns err_wrong_state)
      | some (c, ch) ↦ write_chunk g on_runtime c ch len ptr
    ]

unfoldable pub hyper4k_response_finish : Shared → ℕ → Shared × ℤ
hyper4k_response_finish g responder =
    if responder == 0
    then (g, err_wrong_state)
    else if contains responder g.active
    then (record g { active = remove responder g.active }, hyper4k_ok)
    else (g, err_wrong_state)

-- `poll_frame` of a streaming body: a chunk, the end once no sender is left, or not ready.
pub data Polled : Type 0 where
  frame : Bytes → Polled
  ended pending : Polled

abbrev pub is_sent_to : ℕ → List (ℕ × ℕ) → Bool
is_sent_to c [] = false
is_sent_to c ((r, d) ∷ m) = if c == d then true else is_sent_to c m

unfoldable pub poll_queue : Shared → ℕ → Channel → List Bytes → Shared × Polled
poll_queue g c ch [] = (g, if is_sent_to c g.active then pending else ended)
poll_queue g c ch (b ∷ rest) =
    (record g { channels = insert c (record ch { queue = rest }) g.channels }, frame b)

unfoldable pub poll_frame : Shared → ℕ → Shared × Polled
poll_frame g c = elim (lookup c g.channels) [
  | none ↦ (g, ended)
  | some ch ↦ poll_queue g c ch ch.queue
]
