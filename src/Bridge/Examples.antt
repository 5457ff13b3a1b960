-- ===== src/Bridge/Examples.antt =====
-- lib/src/client/bridge.rs: concrete requests that the theorems apply to.
use hyper4k.Prelude.{
  ◌≡◌, refl, true, false, Option, none, some, List, [], ◌∷◌, ◌++◌, arith, int_eq, subst,
}
use hyper4k.Abi.{err_none, headers_continue, chunk_continue, chunk_cancel, chunk_pause}
use hyper4k.Bridge.State.{
  Gate, Called, Bytes, Reaction, headers, chunk, Terminal, Callbacks, Slot, spawn,
}
use hyper4k.Bridge.Slice.{
  settle_slot, cancelled, run_slice, run_owned, after_rounds, rounds, round, wind_up,
}
use hyper4k.Bridge.Ops.{Op, sends, settles, resumes, cancels, works, step, run, work, send, push}
use hyper4k.Bridge.Invariant.{spawn-Idle}
use hyper4k.Bridge.Delivery.{
  history, shown, taken, delivered_in_order, settle_slot-discard_silent, Outcome,
  first_settlement_wins,
}
use hyper4k.Bridge.Progress.{Flows, cancel_after_drain-hangs}

abbrev pub consumer : Callbacks
consumer = record {
  on_headers = λ l status version hs. record { calls = []; action = headers_continue };
  on_chunk = some (λ l b. record { calls = []; action = chunk_continue });
}

-- CANCEL for every chunk.
abbrev quitter : Callbacks
quitter = record {
  on_headers = λ l status version hs. record { calls = []; action = headers_continue };
  on_chunk = some (λ l b. record { calls = []; action = chunk_cancel });
}

abbrev complete : Terminal
complete = record { kind = err_none; protocol_code = 0; message = "" }

-- A response with one chunk, delivered while it arrives.
abbrev exchange : List Op
exchange =
    sends (headers 200 2 []) ∷ works ∷ sends (chunk (104 ∷ 105 ∷ [])) ∷ settles complete false ∷ []

test_exchange :
    history (run consumer (spawn 1 8 1) (exchange ++ works ∷ [])).log
    ≡ headers 200 2 [] ∷ chunk (104 ∷ 105 ∷ []) ∷ []
unfolding run step work run_slice send push settle_slot spawn run_owned after_rounds rounds round
    wind_up
test_exchange = refl

delivered_in_order_example :
    history (run consumer (spawn 1 8 1) exchange).log
      ++ shown consumer (run consumer (spawn 1 8 1) exchange).queue
    ≡ shown consumer (taken consumer (spawn 1 8 1) exchange)
unfolding run step work run_slice send push settle_slot spawn run_owned after_rounds rounds round
    wind_up
delivered_in_order_example = delivered_in_order consumer 1 8 1 exchange refl

settle_slot-discard_silent_example :
    history (run consumer (settle_slot (spawn 1 8 1) (cancelled "cancelled") true) exchange).log
    ≡ history (spawn 1 8 1).log
unfolding spawn
settle_slot-discard_silent_example =
    settle_slot-discard_silent consumer (spawn 1 8 1) (cancelled "cancelled") exchange refl

first_settlement_wins_example :
    Outcome Gate.terminal_drain complete
      (run consumer (settle_slot (spawn 1 8 1) complete false) (cancels ∷ works ∷ []))
unfolding spawn
first_settlement_wins_example =
    first_settlement_wins consumer (spawn 1 8 1) complete false (cancels ∷ works ∷ [])
      (spawn-Idle 1 8 1 (ground arith) (ground arith)) refl

abbrev GoesOn : List Called → Bytes → Option (List Called → Bytes → Reaction) → Type 0
GoesOn l b none = Unit
GoesOn l b (some f) =
    (int_eq (f l b).action chunk_cancel ≡ false) × (int_eq (f l b).action chunk_pause ≡ false)

pub consumer-Flows : Flows consumer
consumer-Flows = record {
  on_headers = λ l status version hs. refl;
  on_chunk = λ f l b e. subst (GoesOn l b) e (refl, refl);
}

-- The response is complete, and its last chunk is in the queue.
abbrev last_chunk : Slot
last_chunk = run quitter (spawn 1 8 1) exchange

cancel_after_drain-hangs_example :
    (run quitter (work quitter last_chunk) (works ∷ cancels ∷ resumes ∷ [])
      ≡ work quitter last_chunk)
    × ((work quitter last_chunk).finished_flag ≡ false)
unfolding run step work run_slice send push settle_slot spawn run_owned after_rounds rounds round
    wind_up
cancel_after_drain-hangs_example =
    cancel_after_drain-hangs quitter (chunk (104 ∷ 105 ∷ [])) last_chunk
      (works ∷ cancels ∷ resumes ∷ []) refl (refl, refl, refl, refl, refl, refl) refl
