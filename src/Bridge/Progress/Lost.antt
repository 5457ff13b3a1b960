-- ===== src/Bridge/Progress/Lost.antt =====
-- lib/src/client/bridge.rs: a CANCEL returned for the last event of a response that is complete.
use hyper4k.Prelude.{
  ℕ, suc, ℤ, ◌≡◌, refl, Bool, true, false, Option, none, some, List, [], ◌∷◌, arith, int_eq,
  if_cases, subst, sym, ◌+◌, ◌-◌,
}
use hyper4k.Abi.{headers_cancel, chunk_cancel}
use hyper4k.Bridge.State.{
  Gate, Bytes, Event, headers, chunk, Called, Reaction, Callbacks, Slot, Call, resumes, cancels,
  on_event, discarding, is_discard,
}
use hyper4k.Bridge.Slice.{
  resume, cancel, run_calls, logs, deliver_chunk, deliver, deliver_event, react, take_event, round,
  rounds, after_rounds, run_owned, run_slice, settle_slot, set_in_callback, Round, continues,
  breaks, returns_false,
}
use hyper4k.Bridge.Ops.{send, work, slice, Op, sends, settles, works, step, run}

-- The callback for the event answers CANCEL.
abbrev pub answers_cancel : Callbacks → List Called → Event → Bool
answers_cancel cb l (headers status version hs) =
    int_eq (cb.on_headers l status version hs).action headers_cancel
answers_cancel cb l (chunk b) = elim cb.on_chunk [
  | none ↦ false
  | some f ↦ int_eq (f l b).action chunk_cancel
]

-- Nothing is left to do but to call `OnDone`, and no worker will look.
pub record Dead (s : Slot) : Type 0 where
  pub drained : s.state.state ≡ Gate.terminal_drain
  pub unpaused : s.state.paused ≡ false
  pub quiet : s.state.in_callback ≡ false
  pub ready : s.done_ready ≡ true
  pub waiting : s.finished_flag ≡ false
  pub empty : s.queue ≡ []
  pub unlisted : s.ready ≡ 0

-- A slot in the drain that is inside its last callback.
record Leaving (s : Slot) : Type 0 where
  drained : s.state.state ≡ Gate.terminal_drain
  unpaused : s.state.paused ≡ false
  ready : s.done_ready ≡ true
  waiting : s.finished_flag ≡ false
  empty : s.queue ≡ []
  unlisted : s.ready ≡ 0

run_calls-Leaving : (cs : List Call) (s : Slot) → Leaving s → Leaving (run_calls cs s)
unfolding run_calls
run_calls-Leaving [] s v = v
run_calls-Leaving (resumes ∷ cs) s v =
    run_calls-Leaving cs (resume s).0 (unfold resume in ground arith)
run_calls-Leaving (cancels ∷ cs) s v =
    run_calls-Leaving cs (cancel s).0 (unfold cancel in ground arith)

abbrev Cancels : Slot × Option ℤ → Type 0
Cancels r = Leaving r.0 × (r.1 ≡ some chunk_cancel)

deliver_chunk-Leaving :
    (f : Option (List Called → Bytes → Reaction)) (s : Slot) (b : Bytes)
    → (elim f [ none ↦ false | some g ↦ int_eq (g s.log b).action chunk_cancel ]) ≡ true
    → Leaving s
    → Cancels (deliver_chunk f s b)
unfolding deliver_chunk
deliver_chunk-Leaving none s b h v = absurd (ground arith)
deliver_chunk-Leaving (some f) s b h v =
    (run_calls-Leaving (f s.log b).calls (logs s (on_event (chunk b))) (ground arith), ground arith)

deliver-Leaving :
    (cb : Callbacks) (s : Slot) (ev : Event)
    → answers_cancel cb s.log ev ≡ true
    → Leaving s
    → Cancels (deliver cb s ev)
unfolding deliver
deliver-Leaving cb s (headers status version hs) h v = (
  run_calls-Leaving (cb.on_headers s.log status version hs).calls
      (logs s (on_event (headers status version hs))) (ground arith),
  ground arith,
)
deliver-Leaving cb s (chunk b) h v = deliver_chunk-Leaving cb.on_chunk s b h v

abbrev ReturnsDead : Round → Type 0
ReturnsDead (returns_false s) = Dead s
ReturnsDead _ = ⊥

react-Dead :
    (s : Slot) (action : Option ℤ)
    → Leaving s
    → action ≡ some chunk_cancel
    → ReturnsDead (react (set_in_callback false s) action)
unfolding react
react-Dead s none v e = absurd (ground arith)
react-Dead s (some a) v e = ground arith

abbrev LeftDead : Slot × Bool → Type 0
LeftDead r = Dead r.0 × (r.1 ≡ false)

module _ (cb : Callbacks) (ev : Event) where
  -- The last event of a complete response, for which the callback answers CANCEL.
  abbrev pub LastCancelled : Slot → Type 0
  LastCancelled s =
      (s.state.state ≡ Gate.terminal_drain)
      × (s.state.paused ≡ false)
      × (s.finished_flag ≡ false)
      × (s.done_ready ≡ true)
      × (s.queue ≡ ev ∷ [])
      × (answers_cancel cb s.log ev ≡ true)

  take_event-Dead :
      (s : Slot) → LastCancelled s → s.ready ≡ 0 → ReturnsDead (take_event cb s (ev ∷ []))
  unfolding take_event deliver_event discarding
  take_event-Dead s v r =
      if_cases ReturnsDead (is_discard s.state.state) (λ d. absurd (ground arith))
        (λ _. react-Dead (deliver cb t ev).0 (deliver cb t ev).1 left.0 left.1)
    where
      t : Slot
      t = set_in_callback true (record s { queue = []; space = s.space + 1 })

      left : Cancels (deliver cb t ev)
      left = deliver-Leaving cb t ev v.5 (ground arith)

  round-Dead : (s : Slot) → LastCancelled s → s.ready ≡ 0 → ReturnsDead (round cb s)
  unfolding round
  round-Dead s v r =
      if_cases ReturnsDead s.state.paused (λ p. absurd (ground arith))
        (λ _. subst (λ q. ReturnsDead (take_event cb s q)) (sym v.4) (take_event-Dead s v r))

  rounds-Dead :
      (n : ℕ) (s : Slot) → LastCancelled s → s.ready ≡ 0 → ReturnsDead (rounds cb (suc n) s)
  unfolding rounds
  rounds-Dead n s v r = go (round cb s) (round-Dead s v r)
    where
      go :
          (x : Round)
          → ReturnsDead x
          → ReturnsDead (elim x [
            | continues t ↦ rounds cb n t
            | breaks t ↦ breaks t
            | returns_false t ↦ returns_false t
          ])
      go (returns_false t) d = d
      go (continues t) d = absurd d
      go (breaks t) d = absurd d

  after_rounds-Dead : (x : Round) → ReturnsDead x → LeftDead (after_rounds x)
  unfolding after_rounds
  after_rounds-Dead (returns_false t) d = (d, refl)
  after_rounds-Dead (continues t) d = absurd d
  after_rounds-Dead (breaks t) d = absurd d

  run_owned-Dead : (s : Slot) → LastCancelled s → s.ready ≡ 0 → LeftDead (run_owned cb slice s)
  unfolding run_owned
  run_owned-Dead s v r =
      if_cases LeftDead s.state.paused (λ p. absurd (ground arith))
        (λ _.
          after_rounds-Dead (rounds cb slice (record s { scheduled = false }))
            (rounds-Dead 7 (record s { scheduled = false }) v r))

  run_slice-Dead :
      (s : Slot)
      → s.running ≡ false
      → LastCancelled s
      → s.ready ≡ 0
      → LeftDead (run_slice cb slice s)
  unfolding run_slice
  run_slice-Dead s rest v r =
      let d = run_owned-Dead (record s { running = true }) v r in ground arith

  work-Dead : (s : Slot) → s.running ≡ false → LastCancelled s → s.ready ≡ 1 → Dead (work cb s)
  unfolding work
  work-Dead s rest v r =
      let d = run_slice-Dead (record s { ready = s.ready - 1 }) rest v (ground arith) in
      ground arith

step-Dead : (cb : Callbacks) (s : Slot) (op : Op) → Dead s → step cb s op ≡ s
unfolding step
step-Dead cb s (sends ev) d = unfold send in ground arith
step-Dead cb s (settles t discard) d = unfold settle_slot in ground arith
step-Dead cb s Op.resumes d = unfold resume in ground arith
step-Dead cb s Op.cancels d = unfold cancel in ground arith
step-Dead cb s works d = unfold work in ground arith

run-Dead : (cb : Callbacks) (s : Slot) (ops : List Op) → Dead s → run cb s ops ≡ s
unfolding run
run-Dead cb s [] d = refl
run-Dead cb s (op ∷ ops) d = rw (step-Dead cb s op d) (run-Dead cb s ops d)

-- A response is complete (the gate is at drain), one event of it is left in the queue, no other
-- entry of the slot stands in the ready queue, and the callback answers CANCEL to that event. Then
-- the slice that delivers it leaves the request unfinished, and no operation changes it any more:
-- `OnDone` is never called.
pub cancel_after_drain-hangs :
    (cb : Callbacks) (ev : Event) (s : Slot) (ops : List Op)
    → s.running ≡ false
    → LastCancelled cb ev s
    → s.ready ≡ 1
    → (run cb (work cb s) ops ≡ work cb s) × ((work cb s).finished_flag ≡ false)
cancel_after_drain-hangs cb ev s ops rest v r =
    let d = work-Dead cb ev s rest v r in (run-Dead cb (work cb s) ops d, d.waiting)
