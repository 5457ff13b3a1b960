-- ===== src/Server/Respond.antt =====
-- lib/src/lib.rs: `deliver_response` and `hyper4k_respond`.
use hyper4k.Prelude.{
  ℕ, ℤ, pos, Option, none, some, [], if◌then◌else◌, ◌==◌, remove, insert, contains, codes,
}
use hyper4k.Headers.{Bytes, HeaderRules, parse_headers}
use hyper4k.Server.State.{
  hyper4k_ok, hyper4k_failed, err_wrong_state, Delivery, buffered, Shared, Thread, drop_delivery,
  set_sync_response,
}

-- `tx.send`: it succeeds while the receiver exists.
unfoldable pub send_once : Shared → ℕ → Delivery → Shared × ℤ
send_once g responder d =
    if contains responder g.receivers
    then (record g { receivers = insert responder (some d) g.receivers }, hyper4k_ok)
    else (drop_delivery g d, hyper4k_failed)

unfoldable pub deliver_through_channel : Shared → ℕ → Delivery → Shared × ℤ
deliver_through_channel g responder d =
    if contains responder g.pending
    then send_once (record g { pending = remove responder g.pending }) responder d
    else (drop_delivery g d, hyper4k_failed)

abbrev pub slot_busy : Delivery
slot_busy =
    buffered
      (record { status = 500; headers = []; body = codes "hyper4k: sync response slot busy" })

unfoldable pub deliver_response : Shared → Thread → ℕ → Delivery → Shared × Thread × ℤ
deliver_response g t responder d =
    if t.in_callback == responder
    then (let (t', parked) = set_sync_response t d in
        if parked
        then (g, t', pos 1)
        else (let (g', r) = deliver_through_channel (drop_delivery g d) responder slot_busy in
            (g', t', r)))
    else (let (g', r) = deliver_through_channel g responder d in (g', t, r))

abbrev pub to_body : Option Bytes → Bytes
to_body none = []
to_body (some b) = b

unfoldable pub hyper4k_respond :
    HeaderRules → Shared → Thread → ℕ → ℕ → Option Bytes → Option Bytes → Shared × Thread × ℤ
hyper4k_respond h g t responder status headers body =
    if responder == 0
    then (g, t, hyper4k_failed)
    else if contains responder g.active
    then (g, t, err_wrong_state)
    else deliver_response g t responder (
        buffered
          (record { status = status; headers = parse_headers h headers; body = to_body body }))
