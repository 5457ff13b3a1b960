-- ===== src/Bridge/Delivery/Ending.antt =====
-- lib/src/client/bridge.rs: the first settlement decides how the request ends.
use hyper4k.Prelude.{
  ℕ, ◌≡◌, refl, ◌∙◌, Bool, true, false, some, List, [], ◌∷◌, arith, ◌⊎◌, inl, inr, if◌then◌else◌,
}
use hyper4k.Bridge.State.{Gate, Terminal, Called, on_done, on_finished, Callbacks, Slot, is_running}
use hyper4k.Bridge.Slice.{settle_slot}
use hyper4k.Bridge.Ops.{send, Op, sends, settles, resumes, cancels, works, step, run}
use hyper4k.Bridge.Invariant.{Core, Idle, step-Idle}
use hyper4k.Bridge.Delivery.Steps.{Advances, Ends, payload, step-Advances}

-- `x` is waiting to be handed over, or was the last thing that a callback was given.
abbrev pub Awaits : Terminal → Slot → Type 0
Awaits x s = (s.finished_flag ≡ false) × (s.terminal ≡ some x)

abbrev pub Told : Terminal → Slot → Type 0
Told x s =
    (l : List Called) × (s.finished_flag ≡ true) × (s.log ≡ on_finished ∷ on_done (payload x) ∷ l)

abbrev pub Outcome : Gate → Terminal → Slot → Type 0
Outcome g x s = (s.state.state ≡ g) × (Awaits x s ⊎ Told x s)

module _ (cb : Callbacks) {cap total : ℕ} (g : Gate) (closed : is_running g ≡ false)
    (x : Terminal) where
  advance : (s t : Slot) → Core cap total s → Advances cb s t → Outcome g x s → Outcome g x t
  advance s t core v (e, inl (f, h)) =
      (ground arith, after (v.ending (ground arith) (ground arith)))
    where
      after : Ends s t → Awaits x t ⊎ Told x t
      after (inl (same, flag)) = inl (flag ∙ f, same ∙ h)
      after (inr (y, l, before, gone, flag, logged)) = inr (l, flag, ground arith)
  advance s t core v (e, inr (l, f, logged)) = (
    ground arith,
    inr (
      l,
      v.kept f,
      v.frozen (ground arith) (core.closed_terminal f) (core.closed_queue f) ∙ logged,
    ),
  )

  step-Outcome :
      (s : Slot) (op : Op) → Core cap total s → Outcome g x s → Outcome g x (step cb s op)
  step-Outcome s (sends ev) core o =
      let same : step cb s (sends ev) ≡ s = unfold step send in ground arith in rw same o
  step-Outcome s (settles t discard) core o =
      advance s _ core (step-Advances cb s (settles t discard) refl) o
  step-Outcome s resumes core o = advance s _ core (step-Advances cb s resumes refl) o
  step-Outcome s cancels core o = advance s _ core (step-Advances cb s cancels refl) o
  step-Outcome s works core o = advance s _ core (step-Advances cb s works refl) o

  run-Outcome :
      (s : Slot) (ops : List Op) → Idle cap total s → Outcome g x s → Outcome g x (run cb s ops)
  unfolding run
  run-Outcome s [] v o = o
  run-Outcome s (op ∷ ops) v o =
      run-Outcome (step cb s op) ops (step-Idle cb s op v) (step-Outcome s op v.core o)

-- The first settlement of a request decides its end: whatever follows, the gate stays as that
-- settlement left it (discard or drain), and the request either still holds that terminal, or
-- `OnDone` was given it as the last callback, with the `finished` closure run after it.
pub first_settlement_wins :
    (cb : Callbacks) (s : Slot) (x : Terminal) (discard : Bool) (ops : List Op) {cap total : ℕ}
    → Idle cap total s
    → is_running s.state.state ≡ true
    → Outcome
        (if discard then Gate.terminal_discard else Gate.terminal_drain)
        x
        (run cb (settle_slot s x discard) ops)
first_settlement_wins cb s x discard ops {cap = cap} {total = total} v h =
    run-Outcome cb (if discard then Gate.terminal_discard else Gate.terminal_drain) (ground arith) x
      (settle_slot s x discard) ops settled (won discard)
  where
    settled : Idle cap total (settle_slot s x discard)
    settled = unfold step in step-Idle cb s (settles x discard) v

    won :
        (d : Bool)
        → Outcome (if d then Gate.terminal_discard else Gate.terminal_drain) x (settle_slot s x d)
    won d = unfold settle_slot in (ground arith, inl (ground arith, ground arith))
