-- ===== src/Bridge/Invariant/Stepping.antt =====
-- lib/src/client/bridge.rs: the invariant between operations, kept by each of them.
use hyper4k.Prelude.{
  ℕ, ◌-◌, ◌^◌, ◌<◌, ◌≡◌, refl, Bool, true, false, List, [], ◌∷◌, arith, length-append, ◌==◌,
}
use hyper4k.Bridge.State.{Terminal, Event, Slot, Callbacks, spawn, is_terminal}
use hyper4k.Bridge.Slice.{settle_slot, resume, cancel, run_slice}
use hyper4k.Bridge.Ops.{
  push, send, work, slice, Op, sends, settles, resumes, cancels, works, step, run,
}
use hyper4k.Bridge.Invariant.Settling.{Core, settle_slot-Core, resume-Core, cancel-Core}
use hyper4k.Bridge.Invariant.Slicing.{Listed, run_owned-Held}

-- No worker is inside the slot.
pub record Idle (cap total : ℕ) (s : Slot) : Type 0 where
  pub core : Core cap total s
  pub at_rest : s.running ≡ false
  pub quiet : s.state.in_callback ≡ false
  pub spent : s.state.permit ≡ false
  pub listed : Listed s

pub spawn-Idle :
    (id cap total : ℕ) → 0 < total → total < 2 ^ 32 → Idle cap total (spawn id cap total)
unfolding spawn
spawn-Idle id cap total h k = ground arith

module _ {cap total : ℕ} where
  settle_slot-Idle :
      (s : Slot) (t : Terminal) (discard : Bool)
      → Idle cap total s
      → Idle cap total (settle_slot s t discard)
  settle_slot-Idle s t discard v = record {
    core = settle_slot-Core s t discard v.core;
    at_rest = unfold settle_slot in ground arith;
    quiet = unfold settle_slot in ground arith;
    spent = unfold settle_slot in ground arith;
    listed = unfold settle_slot in ground arith;
  }

  resume-Idle : (s : Slot) → Idle cap total s → Idle cap total (resume s).0
  resume-Idle s v = record {
    core = resume-Core s v.core;
    at_rest = unfold resume in ground arith;
    quiet = unfold resume in ground arith;
    spent = unfold resume in ground arith;
    listed = unfold resume in ground arith;
  }

  cancel-Idle : (s : Slot) → Idle cap total s → Idle cap total (cancel s).0
  cancel-Idle s v = record {
    core = cancel-Core s v.core;
    at_rest = unfold cancel in ground arith;
    quiet = unfold cancel in ground arith;
    spent = unfold cancel in ground arith;
    listed = unfold cancel in ground arith;
  }

  push-Idle :
      (s : Slot) (ev : Event)
      → Idle cap total s
      → is_terminal s.state ≡ false
      → (s.space == 0) ≡ false
      → Idle cap total (push s ev)
  unfolding push is_terminal
  push-Idle s ev v alive room = ground (arith, length-append s.queue (ev ∷ []))

  send-Idle : (s : Slot) (ev : Event) → Idle cap total s → Idle cap total (send s ev).0
  unfolding send
  send-Idle s ev v = ground (arith, push-Idle s ev v)

  pub run_slice-Idle :
      (cb : Callbacks) (budget : ℕ) (s : Slot)
      → Core cap total s
      → s.running ≡ false
      → s.state.in_callback ≡ false
      → s.state.permit ≡ false
      → Idle cap total (run_slice cb budget s).0
  unfolding run_slice
  run_slice-Idle cb budget s core rest quiet spent =
      let taken : Core cap total (record s { running = true }) = ground arith in
      let held = run_owned-Held cb budget (record s { running = true }) taken refl quiet spent in
      ground arith

  work-Idle : (cb : Callbacks) (s : Slot) → Idle cap total s → Idle cap total (work cb s)
  unfolding work
  work-Idle cb s v =
      let taken : Core cap total (record s { ready = s.ready - 1 }) = ground arith in
      let after =
        run_slice-Idle cb slice (record s { ready = s.ready - 1 }) taken v.at_rest v.quiet
          v.spent in
      ground arith

  pub step-Idle :
      (cb : Callbacks) (s : Slot) (op : Op) → Idle cap total s → Idle cap total (step cb s op)
  unfolding step
  step-Idle cb s (sends ev) v = send-Idle s ev v
  step-Idle cb s (settles t discard) v = settle_slot-Idle s t discard v
  step-Idle cb s resumes v = resume-Idle s v
  step-Idle cb s cancels v = cancel-Idle s v
  step-Idle cb s works v = work-Idle cb s v

  pub run-Idle :
      (cb : Callbacks) (s : Slot) (ops : List Op) → Idle cap total s → Idle cap total (run cb s ops)
  unfolding run
  run-Idle cb s [] v = v
  run-Idle cb s (op ∷ ops) v = run-Idle cb (step cb s op) ops (step-Idle cb s op v)
