-- ===== src/Bridge/Progress/Finishing.antt =====
-- lib/src/client/bridge.rs: after a settlement the workers bring the request to its `OnDone`.
use hyper4k.Prelude.{
  ℕ, zero, suc, ◌-◌, ◌*◌, ◌≤◌, ◌<◌, ◌^◌, ◌≡◌, refl, true, false, List, [], ◌∷◌, arith, length, ◌⊎◌,
  inl, inr, Bool-cases,
}
use hyper4k.Bridge.State.{Callbacks, Slot, is_running, spawn}
use hyper4k.Bridge.Slice.{settle_slot, resume, cancel}
use hyper4k.Bridge.Ops.{
  push, send, work, slice, Op, sends, settles, resumes, cancels, works, step, run, turns,
}
use hyper4k.Bridge.Invariant.{Idle, spawn-Idle, step-Idle, run-Idle}
use hyper4k.Bridge.Delivery.{step-Advances}
use hyper4k.Bridge.Progress.Flowing.{Flows, Wake, work-Wake}

pub spawn-Wake : (id cap counter : ℕ) → Wake (spawn id cap counter)
unfolding spawn
spawn-Wake id cap counter = ground arith

module _ (cb : Callbacks) (flows : Flows cb) (cap total : ℕ) where
  pub step-Wake : (s : Slot) (op : Op) → Idle cap total s → Wake s → Wake (step cb s op)
  unfolding step
  step-Wake s (sends ev) v w = unfold send push in ground arith
  step-Wake s (settles t discard) v w = unfold settle_slot in ground arith
  step-Wake s resumes v w = unfold resume in ground arith
  step-Wake s cancels v w = unfold cancel in ground arith
  step-Wake s works v w = (work-Wake cb flows cap total s v w).0

  run-Wake : (s : Slot) (ops : List Op) → Idle cap total s → Wake s → Wake (run cb s ops)
  unfolding run
  run-Wake s [] v w = w
  run-Wake s (op ∷ ops) v w = run-Wake (step cb s op) ops (step-Idle cb s op v) (step-Wake s op v w)

  turns-kept :
      (n : ℕ) (s : Slot) → s.finished_flag ≡ true → (run cb s (turns n)).finished_flag ≡ true
  unfolding run
  turns-kept zero s f = f
  turns-kept (suc n) s f = turns-kept n (step cb s works) ((step-Advances cb s works refl).kept f)

  pub turns-finish :
      (n : ℕ) (s : Slot)
      → Idle cap total s
      → Wake s
      → is_running s.state.state ≡ false
      → length s.queue ≤ slice * n
      → 0 < n
      → (run cb s (turns n)).finished_flag ≡ true
  unfolding run
  turns-finish zero s v w closed fits some_turn = absurd (omega arith)
  turns-finish (suc n) s v w closed fits some_turn = elim (Bool-cases s.finished_flag) [
    | inl f ↦ turns-kept n (step cb s works) ((step-Advances cb s works refl).kept f)
    | inr f ↦
        after (turns-finish n (step cb s works) next (step-Wake s works v w) shut)
          ((work-Wake cb flows cap total s v w).1 (w.listed f (inr (v.core.closing_ready closed))))
  ]
    where
      next : Idle cap total (step cb s works)
      next = step-Idle cb s works v

      shut : is_running (step cb s works).state.state ≡ false
      shut = let a = step-Advances cb s works refl in ground arith

      after :
          (length (step cb s works).queue ≤ slice * n
            → 0 < n
            → (run cb (step cb s works) (turns n)).finished_flag ≡ true)
          → ((work cb s).finished_flag ≡ true)
            ⊎ (length (work cb s).queue ≡ length s.queue - slice) × (slice < length s.queue)
            ⊎ ((work cb s).done_ready ≡ false)
          → (run cb (step cb s works) (turns n)).finished_flag ≡ true
      after ih (inl f) = turns-kept n (step cb s works) (unfold step in f)
      after ih (inr (inl (e, more))) = ih (unfold step in omega arith) (omega arith)
      after ih (inr (inr r)) =
          let c = next.core.closing_ready shut in
          let r' : (step cb s works).done_ready ≡ false = unfold step in r in ground arith

-- With a consumer that always continues, a request that has been settled in any history of
-- operations that do not overlap is finished by enough turns of the workers: eight events for each
-- turn.
pub settled-finishes :
    (cb : Callbacks) (id cap total : ℕ) (ops : List Op) (n : ℕ)
    → Flows cb
    → 0 < total
    → total < 2 ^ 32
    → is_running (run cb (spawn id cap total) ops).state.state ≡ false
    → length (run cb (spawn id cap total) ops).queue ≤ slice * n
    → 0 < n
    → (run cb (run cb (spawn id cap total) ops) (turns n)).finished_flag ≡ true
settled-finishes cb id cap total ops n flows pos fits closed few some_turn =
    turns-finish cb flows cap total n (run cb (spawn id cap total) ops)
      (run-Idle cb (spawn id cap total) ops start)
      (run-Wake cb flows cap total (spawn id cap total) ops start (spawn-Wake id cap total)) closed
      few some_turn
  where
    start : Idle cap total (spawn id cap total)
    start = spawn-Idle id cap total pos fits
