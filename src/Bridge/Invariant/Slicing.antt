-- ===== src/Bridge/Invariant/Slicing.antt =====
-- lib/src/client/bridge.rs: the invariant inside `run_slice`, round by round.
use hyper4k.Prelude.{
  ℕ, zero, suc, ◌+◌, ◌<◌, ◌≡◌, refl, ℤ, Bool, true, false, Option, none, some, List, [], ◌∷◌, arith,
  if_cases,
}
use hyper4k.Bridge.State.{
  Terminal, Bytes, Reaction, Called, Event, headers, chunk, on_event, Slot, Call, resumes, cancels,
  Callbacks, discarding,
}
use hyper4k.Bridge.Slice.{
  resume, cancel, run_calls, logs, deliver_chunk, deliver, Round, continues, breaks, returns_false,
  react, set_in_callback, deliver_event, take_event, round, rounds, finish, wind_up, after_rounds,
  run_owned,
}
use hyper4k.Bridge.Invariant.Settling.{Core, resume-Core, cancel-Core}

-- A slot marked as scheduled is in the ready queue.
abbrev pub Listed : Slot → Type 0
Listed s = s.scheduled ≡ true → 0 < s.ready

-- A slot that a worker holds, between two events.
pub record Held (cap total : ℕ) (s : Slot) : Type 0 where
  pub core : Core cap total s
  pub busy : s.running ≡ true
  pub quiet : s.state.in_callback ≡ false
  pub spent : s.state.permit ≡ false
  pub listed : Listed s

-- A slot inside a callback; it is not finished, and not paused.
pub record Calling (cap total : ℕ) (s : Slot) : Type 0 where
  pub core : Core cap total s
  pub busy : s.running ≡ true
  pub live : s.finished_flag ≡ false
  pub awake : s.state.paused ≡ false
  pub listed : Listed s

-- Unless the loop returns false, the slot is not paused.
abbrev pub OnRound : (Slot → Type 0) → Round → Type 0
OnRound P (continues s) = P s × (s.state.paused ≡ false)
OnRound P (breaks s) = P s × (s.state.paused ≡ false)
OnRound P (returns_false s) = P s

module _ {cap total : ℕ} where
  resume-Calling : (s : Slot) → Calling cap total s → Calling cap total (resume s).0
  resume-Calling s v = record {
    core = resume-Core s v.core;
    busy = unfold resume in ground arith;
    live = unfold resume in ground arith;
    awake = unfold resume in ground arith;
    listed = unfold resume in ground arith;
  }

  cancel-Calling : (s : Slot) → Calling cap total s → Calling cap total (cancel s).0
  cancel-Calling s v = record {
    core = cancel-Core s v.core;
    busy = unfold cancel in ground arith;
    live = unfold cancel in ground arith;
    awake = unfold cancel in ground arith;
    listed = unfold cancel in ground arith;
  }

  run_calls-Calling :
      (cs : List Call) (s : Slot) → Calling cap total s → Calling cap total (run_calls cs s)
  unfolding run_calls
  run_calls-Calling [] s v = v
  run_calls-Calling (resumes ∷ cs) s v = run_calls-Calling cs (resume s).0 (resume-Calling s v)
  run_calls-Calling (cancels ∷ cs) s v = run_calls-Calling cs (cancel s).0 (cancel-Calling s v)

  logs-Calling :
      (s : Slot) (e : Event) → Calling cap total s → Calling cap total (logs s (on_event e))
  logs-Calling s e v = ground arith

  deliver_chunk-Calling :
      (f : Option (List Called → Bytes → Reaction)) (s : Slot) (b : Bytes)
      → Calling cap total s
      → Calling cap total (deliver_chunk f s b).0
  unfolding deliver_chunk
  deliver_chunk-Calling none s b v = v
  deliver_chunk-Calling (some f) s b v =
      run_calls-Calling (f s.log b).calls (logs s (on_event (chunk b))) (logs-Calling s (chunk b) v)

  deliver-Calling :
      (cb : Callbacks) (s : Slot) (ev : Event)
      → Calling cap total s
      → Calling cap total (deliver cb s ev).0
  unfolding deliver
  deliver-Calling cb s (headers status version hs) v =
      run_calls-Calling (cb.on_headers s.log status version hs).calls
        (logs s (on_event (headers status version hs)))
        (logs-Calling s (headers status version hs) v)
  deliver-Calling cb s (chunk b) v = deliver_chunk-Calling cb.on_chunk s b v

  react-Held :
      (s : Slot) (action : Option ℤ)
      → Calling cap total s
      → s.state.in_callback ≡ false
      → OnRound (Held cap total) (react s action)
  unfolding react
  react-Held s none v q = ground arith
  react-Held s (some a) v q = ground arith

  deliver_event-Held :
      (cb : Callbacks) (s : Slot) (ev : Event)
      → Held cap total s
      → s.finished_flag ≡ false
      → s.state.paused ≡ false
      → OnRound (Held cap total) (deliver_event cb s ev)
  unfolding deliver_event
  deliver_event-Held cb s ev v live awake =
      react-Held (set_in_callback false (deliver cb (set_in_callback true s) ev).0)
        (deliver cb (set_in_callback true s) ev).1
        (outside _ (deliver-Calling cb _ ev (inside s v live awake))) refl
    where
      inside :
          (s : Slot)
          → Held cap total s
          → s.finished_flag ≡ false
          → s.state.paused ≡ false
          → Calling cap total (set_in_callback true s)
      inside s v live awake = ground arith

      outside : (s : Slot) → Calling cap total s → Calling cap total (set_in_callback false s)
      outside s v = ground arith

  take_event-Held :
      (cb : Callbacks) (s : Slot) (q : List Event)
      → s.queue ≡ q
      → Held cap total s
      → s.state.paused ≡ false
      → OnRound (Held cap total) (take_event cb s q)
  unfolding take_event
  take_event-Held cb s [] e v awake = (v, awake)
  take_event-Held cb s (ev ∷ rest) e v awake =
      if_cases (OnRound (Held cap total)) (discarding s.state) (λ _. (popped s e v, awake))
        (λ _. deliver_event-Held cb _ ev (popped s e v) (live s e v) awake)
    where
      live : (s : Slot) → s.queue ≡ ev ∷ rest → Held cap total s → s.finished_flag ≡ false
      live s e v = ground arith

      popped :
          (s : Slot)
          → s.queue ≡ ev ∷ rest
          → Held cap total s
          → Held cap total (record s { queue = rest; space = s.space + 1 })
      popped s e v = ground arith

  round-Held :
      (cb : Callbacks) (s : Slot) → Held cap total s → OnRound (Held cap total) (round cb s)
  unfolding round
  round-Held cb s v =
      if_cases (OnRound (Held cap total)) s.state.paused (λ _. v)
        (λ awake. take_event-Held cb s s.queue refl v awake)

  pub rounds-Held :
      (cb : Callbacks) (budget : ℕ) (s : Slot)
      → Held cap total s
      → s.state.paused ≡ false
      → OnRound (Held cap total) (rounds cb budget s)
  unfolding rounds
  rounds-Held cb zero s v awake = (v, awake)
  rounds-Held cb (suc budget) s v awake =
      go (rounds-Held cb budget) (round cb s) (round-Held cb s v)
    where
      go :
          ((t : Slot)
            → Held cap total t
            → t.state.paused ≡ false
            → OnRound (Held cap total) (rounds cb budget t))
          → (r : Round) → OnRound (Held cap total) r
          → OnRound (Held cap total) (elim r [
            | continues t ↦ rounds cb budget t
            | breaks t ↦ breaks t
            | returns_false t ↦ returns_false t
          ])
      go ih (continues t) w = ih t w.0 w.1
      go ih (breaks t) w = w
      go ih (returns_false t) w = w

  finish-Core :
      (s : Slot) (t : Terminal)
      → Core cap total s
      → s.terminal ≡ some t
      → s.queue ≡ []
      → s.state.paused ≡ false
      → Core cap total (finish s t)
  unfolding finish
  finish-Core s t v e q p = ground arith

  -- What a slice leaves: the slot still counts as taken, and may be finished.
  wind_up-Held :
      (s : Slot) → Held cap total s → s.state.paused ≡ false → Held cap total (wind_up s).0
  unfolding wind_up
  wind_up-Held s v awake = ground (arith, finish-Core s)

  after_rounds-Held : (r : Round) → OnRound (Held cap total) r → Held cap total (after_rounds r).0
  unfolding after_rounds
  after_rounds-Held (continues s) (v, awake) = wind_up-Held s v awake
  after_rounds-Held (breaks s) (v, awake) = wind_up-Held s v awake
  after_rounds-Held (returns_false s) v = v

  pub run_owned-Held :
      (cb : Callbacks) (budget : ℕ) (s : Slot)
      → Core cap total s
      → s.running ≡ true
      → s.state.in_callback ≡ false
      → s.state.permit ≡ false
      → Held cap total (run_owned cb budget s).0
  unfolding run_owned
  run_owned-Held cb budget s core busy quiet spent =
      if_cases (λ (r : Slot × Bool). Held cap total r.0) s.state.paused (λ _. start)
        (λ awake. after_rounds-Held (rounds cb budget _) (rounds-Held cb budget _ start awake))
    where
      start : Held cap total (record s { scheduled = false })
      start = ground arith
