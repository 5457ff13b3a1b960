-- ===== src/Bridge/Delivery/Order.antt =====
-- lib/src/client/bridge.rs: events reach the consumer in order, none lost and none twice.
use hyper4k.Prelude.{
  ℕ, ◌≡◌, refl, sym, ◌∙◌, ap, true, false, List, [], ◌∷◌, ◌++◌, arith, append_assoc, append-nil,
  inl, inr, Bool-cases,
}
use hyper4k.Bridge.State.{Event, Terminal, Callbacks, Slot, is_running, is_discard, spawn}
use hyper4k.Bridge.Slice.{settle_slot}
use hyper4k.Bridge.Ops.{send, Op, sends, settles, resumes, cancels, works, push, step, run}
use hyper4k.Bridge.Delivery.Rounds.{account, history, shown, shown-append}
use hyper4k.Bridge.Delivery.Steps.{accepted, step-Advances}

-- The events that a run took, in order.
abbrev pub taken : Callbacks → Slot → List Op → List Event
taken cb s [] = []
taken cb s (op ∷ ops) = accepted s op ++ taken cb (step cb s op) ops

module _ (cb : Callbacks) where
  send-account :
      (s : Slot) (ev : Event)
      → account cb (send s ev).0 ≡ account cb s ++ shown cb (accepted s (sends ev))
  unfolding send push
  send-account s ev = ground (
    arith,
    shown-append cb s.queue (ev ∷ []),
    append_assoc (history s.log) (shown cb s.queue) (shown cb (ev ∷ [])),
    append-nil (account cb s),
  )

  -- An operation adds to the account the event that it takes, unless the rest is dropped.
  step-account :
      (s : Slot) (op : Op)
      → is_discard (step cb s op).state.state ≡ false
      → account cb (step cb s op) ≡ account cb s ++ shown cb (accepted s op)
  step-account s (sends ev) d = unfold step in send-account s ev
  step-account s (settles t discard) d =
      (step-Advances cb s (settles t discard) refl).fifo d ∙ sym (append-nil (account cb s))
  step-account s resumes d =
      (step-Advances cb s resumes refl).fifo d ∙ sym (append-nil (account cb s))
  step-account s cancels d =
      (step-Advances cb s cancels refl).fifo d ∙ sym (append-nil (account cb s))
  step-account s works d = (step-Advances cb s works refl).fifo d ∙ sym (append-nil (account cb s))

  -- Once the queue is discarded it stays so, and no event is delivered any more.
  step-discard :
      (s : Slot) (op : Op)
      → is_discard s.state.state ≡ true
      → (is_discard (step cb s op).state.state ≡ true)
        × (history (step cb s op).log ≡ history s.log)
  step-discard s (sends ev) d = unfold step send in ground arith
  step-discard s (settles t discard) d =
      let v = step-Advances cb s (settles t discard) refl in ground arith
  step-discard s resumes d = let v = step-Advances cb s resumes refl in ground arith
  step-discard s cancels d = let v = step-Advances cb s cancels refl in ground arith
  step-discard s works d = let v = step-Advances cb s works refl in ground arith

  run-discard :
      (s : Slot) (ops : List Op)
      → is_discard s.state.state ≡ true
      → (is_discard (run cb s ops).state.state ≡ true)
        × (history (run cb s ops).log ≡ history s.log)
  unfolding run
  run-discard s [] d = (d, refl)
  run-discard s (op ∷ ops) d =
      let (e, h) = step-discard s op d in
      let (e', h') = run-discard (step cb s op) ops e in (e', h' ∙ h)

  run-account :
      (s : Slot) (ops : List Op)
      → is_discard (run cb s ops).state.state ≡ false
      → account cb (run cb s ops) ≡ account cb s ++ shown cb (taken cb s ops)
  unfolding run
  run-account s [] d = sym (append-nil (account cb s))
  run-account s (op ∷ ops) d = elim (Bool-cases (is_discard (step cb s op).state.state)) [
    | inl k ↦ let e = run-discard (step cb s op) ops k in ground arith
    | inr k ↦ ground (
      arith,
      run-account (step cb s op) ops d,
      step-account s op k,
      shown-append cb (accepted s op) (taken cb (step cb s op) ops),
      append_assoc (account cb s) (shown cb (accepted s op))
          (shown cb (taken cb (step cb s op) ops)),
    )
  ]

-- From the submission of a request on, whatever the order of sends, workers' slices, resumes,
-- cancels and settlements, as long as the gate has not closed with a discard: the events delivered
-- so far, followed by the queued ones, are the events that `send` has taken, in the order of the
-- sends and each once (of chunks only if there is an `on_chunk`).
pub delivered_in_order :
    (cb : Callbacks) (id cap counter : ℕ) (ops : List Op)
    → let s = spawn id cap counter in
      is_discard (run cb s ops).state.state ≡ false
      → history (run cb s ops).log ++ shown cb (run cb s ops).queue ≡ shown cb (taken cb s ops)
unfolding spawn
delivered_in_order cb id cap counter ops d = run-account cb (spawn id cap counter) ops d

-- Once a request that was running is settled with a discard, no event is delivered in any later
-- operation.
pub settle_slot-discard_silent :
    (cb : Callbacks) (s : Slot) (t : Terminal) (ops : List Op)
    → is_running s.state.state ≡ true
    → history (run cb (settle_slot s t true) ops).log ≡ history s.log
settle_slot-discard_silent cb s t ops h =
    let e : is_discard (settle_slot s t true).state.state ≡ true =
      unfold settle_slot in ground arith in
    let l : (settle_slot s t true).log ≡ s.log = unfold settle_slot in ground arith in
    (run-discard cb (settle_slot s t true) ops e).1 ∙ ap history l
