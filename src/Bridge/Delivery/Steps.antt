-- ===== src/Bridge/Delivery/Steps.antt =====
-- lib/src/client/bridge.rs: what a worker's slice, and any other operation, does to a request.
use hyper4k.Prelude.{
  ℕ, ◌+◌, ◌-◌, ◌≡◌, refl, Bool, true, false, Option, none, some, List, [], ◌∷◌, arith, if_cases,
  if◌then◌else◌, ◌⊎◌, inl, inr, ◌&&◌, ◌==◌,
}
use hyper4k.Abi.{err_none}
use hyper4k.Prelude.{int_eq}
use hyper4k.Bridge.State.{
  Event, Terminal, Called, on_done, on_finished, Callbacks, Slot, is_running, is_discard,
}
use hyper4k.Bridge.Slice.{
  Round, continues, breaks, returns_false, rounds, finish, wind_up, after_rounds, run_owned,
  run_slice, settle_slot, resume, cancel, is_empty,
}
use hyper4k.Bridge.Ops.{
  send, work, slice, Op, sends, settles, resumes, cancels, works, step, queued,
}
use hyper4k.Bridge.Delivery.Rounds.{Follows, OnNext, rounds-Follows, account, history}

-- What `OnDone` is given: NULL for a normal completion.
abbrev pub payload : Terminal → Option Terminal
payload t = if int_eq t.kind err_none then none else some t

-- Either the slot is no nearer to its end, or its terminal was handed over.
abbrev pub Ends : Slot → Slot → Type 0
Ends s t =
    ((t.terminal ≡ s.terminal) × (t.finished_flag ≡ s.finished_flag))
    ⊎ ((x : Terminal) × (l : List Called) × (s.terminal ≡ some x)
        × (t.terminal ≡ none)
        × (t.finished_flag ≡ true)
        × (t.log ≡ on_finished ∷ on_done (payload x) ∷ l))

pub record Advances (cb : Callbacks) (s t : Slot) : Type 0 where
  pub gate : is_running s.state.state ≡ false → t.state.state ≡ s.state.state
  pub commit : t.state.committed ≡ s.state.committed
  pub silent : is_discard s.state.state ≡ true → history t.log ≡ history s.log
  pub fifo : is_discard t.state.state ≡ false → account cb t ≡ account cb s
  pub ending : is_running s.state.state ≡ false → s.finished ≡ true → Ends s t
  pub frozen : is_running s.state.state ≡ false → s.terminal ≡ none → s.queue ≡ [] → t.log ≡ s.log
  pub kept : s.finished_flag ≡ true → t.finished_flag ≡ true

-- Winding up changes nothing, or hands the terminal over.
wind_up_cases {ℓ} :
    (P : Slot → Type ℓ) (s : Slot)
    → P s
    → ((x : Terminal) → s.terminal ≡ some x → s.queue ≡ [] → P (finish s x))
    → P (wind_up s).0
unfolding wind_up
wind_up_cases P s stay done = go s.queue s.done_ready s.terminal refl refl
  where
    go :
        (q : List Event) (ready : Bool) (o : Option Terminal)
        → s.queue ≡ q
        → s.terminal ≡ o
        → P
            (if◌then◌else◌ {A = Slot × Bool}
              (is_empty q && ready)
              (elim o [ none ↦ s | some x ↦ finish s x ], false)
              (s, if is_empty q then false else true)).0
    go [] true none e f = stay
    go [] true (some x) e f = done x f e
    go [] false o e f = stay
    go (ev ∷ q) ready o e f = stay

-- The event that an operation adds to the queue.
abbrev pub accepted : Slot → Op → List Event
accepted s (sends ev) = elim (send s ev).1 [ queued ↦ ev ∷ [] | _ ↦ [] ]
accepted s _ = []

module _ (cb : Callbacks) where
  finish-Advances :
      (s t : Slot) (x : Terminal)
      → Follows cb s t
      → t.terminal ≡ some x
      → Advances cb s (finish t x)
  unfolding finish
  finish-Advances s t x v e = record {
    gate = ground arith;
    commit = ground arith;
    silent = ground arith;
    fifo = ground arith;
    ending = λ h k. inr (x, t.log, ground arith, ground arith, ground arith, ground arith);
    frozen = ground arith;
    kept = ground arith;
  }

  stay-Advances : (s t : Slot) → Follows cb s t → Advances cb s t
  stay-Advances s t v = record {
    gate = v.gate;
    commit = v.commit;
    silent = v.silent;
    fifo = v.fifo;
    ending = λ h k. inl (v.ending h, v.flag);
    frozen = ground arith;
    kept = ground arith;
  }

  after_rounds-Advances :
      (s : Slot) (r : Round) → OnNext (Follows cb s) r → Advances cb s (after_rounds r).0
  unfolding after_rounds
  after_rounds-Advances s (continues t) v =
      wind_up_cases (Advances cb s) t (stay-Advances s t v) (λ x e _. finish-Advances s t x v e)
  after_rounds-Advances s (breaks t) v =
      wind_up_cases (Advances cb s) t (stay-Advances s t v) (λ x e _. finish-Advances s t x v e)
  after_rounds-Advances s (returns_false t) v = stay-Advances s t v

  run_owned-Advances : (budget : ℕ) (s : Slot) → Advances cb s (run_owned cb budget s).0
  unfolding run_owned
  run_owned-Advances budget s =
      if_cases (λ (r : Slot × Bool). Advances cb s r.0) s.state.paused
        (λ _. stay-Advances s _ (ground arith))
        (λ _.
          after_rounds-Advances s (rounds cb budget (record s { scheduled = false }))
            (relabel _ (rounds-Follows cb budget (record s { scheduled = false }))))
    where
      relabel :
          (r : Round)
          → OnNext (Follows cb (record s { scheduled = false })) r
          → OnNext (Follows cb s) r
      relabel (continues t) v = ground arith
      relabel (breaks t) v = ground arith
      relabel (returns_false t) v = ground arith

  -- The marks of the scheduler are not looked at.
  marks-Advances :
      (s t : Slot) (a b : Bool) (m n : ℕ)
      → Advances cb (record s { running = a; ready = m }) t
      → Advances cb s (record t { running = b; ready = n })
  marks-Advances s t a b m n v = record {
    gate = v.gate;
    commit = v.commit;
    silent = v.silent;
    fifo = v.fifo;
    ending = v.ending;
    frozen = v.frozen;
    kept = v.kept;
  }

  run_slice-Advances : (budget : ℕ) (s : Slot) → Advances cb s (run_slice cb budget s).0
  unfolding run_slice
  run_slice-Advances budget s =
      let t = (run_owned cb budget (record s { running = true })).0 in
      let v = marks-Advances s t true false s.ready t.ready (run_owned-Advances budget _) in
      if_cases (λ (r : Slot × Bool). Advances cb s r.0) s.running
        (λ _. stay-Advances s _ (ground arith))
        (λ _. if_cases (λ (r : Slot × Bool). Advances cb s r.0) t.finished_flag (λ _. v) (λ _. v))

  work-Advances : (s : Slot) → Advances cb s (work cb s)
  unfolding work
  work-Advances s =
      let m = s.ready - 1 in
      let r = run_slice cb slice (record s { ready = m }) in
      let v = run_slice-Advances slice (record s { ready = m }) in
      if_cases (Advances cb s) (s.ready == 0) (λ _. stay-Advances s s (ground arith))
        (λ _.
          if_cases (Advances cb s) r.1
            (λ _. marks-Advances s r.0 s.running r.0.running m (r.0.ready + 1) v)
            (λ _. marks-Advances s r.0 s.running r.0.running m r.0.ready v))

  settle_slot-Advances :
      (s : Slot) (t : Terminal) (discard : Bool) → Advances cb s (settle_slot s t discard)
  unfolding settle_slot
  settle_slot-Advances s t discard = stay-Advances s _ (ground arith)

  resume-Advances : (s : Slot) → Advances cb s (resume s).0
  unfolding resume
  resume-Advances s = stay-Advances s _ (ground arith)

  cancel-Advances : (s : Slot) → Advances cb s (cancel s).0
  unfolding cancel
  cancel-Advances s = stay-Advances s _ (ground arith)

  -- An operation that is no `send`.
  pub step-Advances : (s : Slot) (op : Op) → accepted s op ≡ [] → Advances cb s (step cb s op)
  unfolding step
  step-Advances s (sends ev) h = unfold send in stay-Advances s _ (ground arith)
  step-Advances s (settles t discard) h = settle_slot-Advances s t discard
  step-Advances s resumes h = resume-Advances s
  step-Advances s cancels h = cancel-Advances s
  step-Advances s works h = work-Advances s
