-- ===== src/Bridge/Progress/Flowing.antt =====
-- lib/src/client/bridge.rs: a consumer that always continues gets its `OnDone`.
use hyper4k.Prelude.{
  ℕ, zero, suc, ℤ, ◌+◌, ◌-◌, ◌<◌, ◌≡◌, refl, sym, subst, Bool, true, false, Option, none, some,
  List, [], ◌∷◌, arith, int_eq, length, if_cases, ◌⊎◌,
}
use hyper4k.Abi.{headers_cancel, chunk_cancel, chunk_pause}
use hyper4k.Bridge.State.{
  Bytes, Event, headers, chunk, Called, Reaction, Callbacks, Slot, Call, resumes, cancels, on_event,
  discarding, is_discard,
}
use hyper4k.Bridge.Slice.{
  resume, cancel, run_calls, logs, deliver_chunk, deliver, deliver_event, react, take_event, round,
  rounds, finish, wind_up, after_rounds, run_owned, run_slice, set_in_callback, Round, continues,
  breaks, returns_false, is_empty,
}
use hyper4k.Bridge.Ops.{work, slice}
use hyper4k.Bridge.Invariant.{Core, Idle, Held, OnRound, rounds-Held, run_slice-Idle}

-- No callback answers CANCEL or PAUSE. (It may still call `resume` or `cancel`.)
pub record Flows (cb : Callbacks) : Type 0 where
  pub on_headers :
      (l : List Called) (status version : ℕ) (hs : List (Bytes × Bytes))
      → int_eq (cb.on_headers l status version hs).action headers_cancel ≡ false
  pub on_chunk :
      (f : List Called → Bytes → Reaction) (l : List Called) (b : Bytes)
      → cb.on_chunk ≡ some f
      → (int_eq (f l b).action chunk_cancel ≡ false) × (int_eq (f l b).action chunk_pause ≡ false)

-- The slot is not paused, and its queue has `n` events.
record Holds (n : ℕ) (s : Slot) : Type 0 where
  awake : s.state.paused ≡ false
  held : length s.queue ≡ n

run_calls-Holds : (n : ℕ) (cs : List Call) (s : Slot) → Holds n s → Holds n (run_calls cs s)
unfolding run_calls
run_calls-Holds n [] s v = v
run_calls-Holds n (resumes ∷ cs) s v =
    run_calls-Holds n cs (resume s).0 (unfold resume in ground arith)
run_calls-Holds n (cancels ∷ cs) s v =
    run_calls-Holds n cs (cancel s).0 (unfold cancel in ground arith)

abbrev GoesOn : Option ℤ → Type 0
GoesOn none = Unit {0}
GoesOn (some a) = (int_eq a chunk_cancel ≡ false) × (int_eq a chunk_pause ≡ false)

-- A round went on, and left `n` events.
abbrev Continues : ℕ → Round → Type 0
Continues n (continues s) = Holds n s
Continues n _ = ⊥

abbrev Breaks : ℕ → Round → Type 0
Breaks n (breaks s) = Holds n s
Breaks n _ = ⊥

react-Continues :
    (n : ℕ) (s : Slot) (a : Option ℤ)
    → Holds n s
    → GoesOn a
    → Continues n (react (set_in_callback false s) a)
unfolding react
react-Continues n s none v g = ground arith
react-Continues n s (some a) v g = ground arith

module _ (cb : Callbacks) (flows : Flows cb) where
  deliver_chunk-Holds :
      (n : ℕ) (f : Option (List Called → Bytes → Reaction)) (s : Slot) (b : Bytes)
      → cb.on_chunk ≡ f
      → Holds n s
      → Holds n (deliver_chunk f s b).0 × GoesOn (deliver_chunk f s b).1
  unfolding deliver_chunk
  deliver_chunk-Holds n none s b e v = (v, tt)
  deliver_chunk-Holds n (some f) s b e v = (
    run_calls-Holds n (f s.log b).calls (logs s (on_event (chunk b))) (ground arith),
    flows.on_chunk f s.log b e,
  )

  deliver-Holds :
      (n : ℕ) (s : Slot) (ev : Event)
      → Holds n s
      → Holds n (deliver cb s ev).0 × GoesOn (deliver cb s ev).1
  unfolding deliver
  deliver-Holds n s (headers status version hs) v = (
    run_calls-Holds n (cb.on_headers s.log status version hs).calls
        (logs s (on_event (headers status version hs))) (ground arith),
    rw (flows.on_headers s.log status version hs) tt,
  )
  deliver-Holds n s (chunk b) v = deliver_chunk-Holds n cb.on_chunk s b refl v

  take_event-Continues :
      (s : Slot) (ev : Event) (rest : List Event)
      → s.state.paused ≡ false
      → Continues (length rest) (take_event cb s (ev ∷ rest))
  unfolding take_event deliver_event discarding
  take_event-Continues s ev rest awake =
      if_cases (Continues (length rest)) (is_discard s.state.state) (λ _. ground arith)
        (λ _. react-Continues (length rest) (deliver cb t ev).0 (deliver cb t ev).1 left.0 left.1)
    where
      t : Slot
      t = set_in_callback true (record s { queue = rest; space = s.space + 1 })

      left : Holds (length rest) (deliver cb t ev).0 × GoesOn (deliver cb t ev).1
      left = deliver-Holds (length rest) t ev (ground arith)

  round-cons :
      (s : Slot) (ev : Event) (rest : List Event)
      → s.queue ≡ ev ∷ rest
      → s.state.paused ≡ false
      → Continues (length rest) (round cb s)
  unfolding round
  round-cons s ev rest e awake =
      if_cases (Continues (length rest)) s.state.paused (λ p. absurd (ground arith))
        (λ _.
          subst (λ q. Continues (length rest) (take_event cb s q)) (sym e)
            (take_event-Continues s ev rest awake))

  round-nil : (s : Slot) → s.queue ≡ [] → s.state.paused ≡ false → round cb s ≡ breaks s
  unfolding round take_event
  round-nil s e awake = ground arith

  -- The loop handles as many events as the budget has rounds, or all there are.
  rounds-Breaks :
      (n : ℕ) (q : List Event) (s : Slot)
      → s.queue ≡ q
      → s.state.paused ≡ false
      → Breaks (length q - n) (rounds cb n s)
  unfolding rounds
  rounds-Breaks zero q s e awake = ground arith
  rounds-Breaks (suc n) [] s e awake =
      subst
        (λ x. Breaks (0 - suc n) (elim x [
          | continues t ↦ rounds cb n t
          | breaks t ↦ breaks t
          | returns_false t ↦ returns_false t
        ]))
        (sym (round-nil s e awake)) (ground arith)
  rounds-Breaks (suc n) (ev ∷ rest) s e awake =
      go (λ t v. rounds-Breaks n t.queue t refl v) (round cb s) (round-cons s ev rest e awake)
    where
      go :
          ((t : Slot) → t.state.paused ≡ false → Breaks (length t.queue - n) (rounds cb n t))
          → (x : Round) → Continues (length rest) x
          → Breaks (suc (length rest) - suc n) (elim x [
            | continues t ↦ rounds cb n t
            | breaks t ↦ breaks t
            | returns_false t ↦ returns_false t
          ])
      go ih (continues t) v =
          subst (λ m. Breaks m (rounds cb n t)) (omega (arith, v.held)) (ih t v.awake)
      go ih (breaks t) v = absurd v
      go ih (returns_false t) v = absurd v

-- How a slice that was not stopped leaves the slot: with more to do, finished, or with nothing to do.
abbrev pub Rests : ℕ → Slot × Bool → Type 0
Rests n r =
    (r.0.state.paused ≡ false)
    × ((r.0.finished_flag ≡ true)
        ⊎ ((r.1 ≡ true) × (length r.0.queue ≡ n) × (0 < n))
        ⊎ ((r.0.queue ≡ []) × (r.0.done_ready ≡ false)))

wind_up-Rests :
    {cap total : ℕ} (n : ℕ) (s : Slot) → Held cap total s → Holds n s → Rests n (wind_up s)
unfolding wind_up finish
wind_up-Rests n s v h = ground arith

-- A slot that is not paused and has something to deliver stands in the ready queue.
pub record Wake (s : Slot) : Type 0 where
  pub awake : s.state.paused ≡ false
  pub listed :
      s.finished_flag ≡ false → (is_empty s.queue ≡ false) ⊎ (s.done_ready ≡ true) → 0 < s.ready

module _ (cb : Callbacks) (flows : Flows cb) (cap total : ℕ) where
  after_rounds-Rests :
      (n : ℕ) (x : Round) → OnRound (Held cap total) x → Breaks n x → Rests n (after_rounds x)
  unfolding after_rounds
  after_rounds-Rests n (breaks s) v h = wind_up-Rests n s v.0 h
  after_rounds-Rests n (continues s) v h = absurd h
  after_rounds-Rests n (returns_false s) v h = absurd h

  pub run_owned-Rests :
      (n : ℕ) (s : Slot)
      → Core cap total s
      → s.running ≡ true
      → s.state.in_callback ≡ false
      → s.state.permit ≡ false
      → s.state.paused ≡ false
      → Rests (length s.queue - n) (run_owned cb n s)
  unfolding run_owned
  run_owned-Rests n s core busy quiet spent awake =
      if_cases (Rests (length s.queue - n)) s.state.paused (λ p. absurd (ground arith))
        (λ _.
          after_rounds-Rests (length s.queue - n) (rounds cb n t) (rounds-Held cb n t held awake)
            (rounds-Breaks cb flows n s.queue t refl awake))
    where
      t : Slot
      t = record s { scheduled = false }

      held : Held cap total t
      held = ground arith

  run_slice-Rests :
      (n : ℕ) (s : Slot)
      → Core cap total s
      → s.running ≡ false
      → s.state.in_callback ≡ false
      → s.state.permit ≡ false
      → s.state.paused ≡ false
      → Rests (length s.queue - n) (run_slice cb n s)
  unfolding run_slice
  run_slice-Rests n s core rest quiet spent awake =
      let taken : Core cap total (record s { running = true }) = ground arith in
      let r = run_owned-Rests n (record s { running = true }) taken refl quiet spent awake in
      ground arith

  pub work-Wake :
      (s : Slot)
      → Idle cap total s
      → Wake s
      → Wake (work cb s)
        × (0 < s.ready
            → ((work cb s).finished_flag ≡ true)
              ⊎ (length (work cb s).queue ≡ length s.queue - slice) × (slice < length s.queue)
              ⊎ ((work cb s).done_ready ≡ false))
  unfolding work
  work-Wake s v w =
      let t = record s { ready = s.ready - 1 } in
      let taken : Core cap total t = ground arith in
      let r = run_slice-Rests slice t taken v.at_rest v.quiet v.spent w.awake in
      let after = run_slice-Idle cb slice t taken v.at_rest v.quiet v.spent in ground arith
