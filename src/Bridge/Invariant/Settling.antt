-- ===== src/Bridge/Invariant/Settling.antt =====
-- lib/src/client/bridge.rs: the part of the invariant that also holds inside a worker's slice, and
-- that settling, resuming and cancelling keep it.
use hyper4k.Prelude.{
  ℕ, ◌+◌, ◌-◌, ◌^◌, ◌≤◌, ◌<◌, suc, ◌≡◌, Bool, true, false, not, Option, none, some, List, [], ◌∷◌,
  arith, length, if◌then◌else◌,
}
use hyper4k.Bridge.State.{
  Called, on_event, on_done, on_finished, Terminal, Slot, Call, resumes, cancels, is_running,
}
use hyper4k.Bridge.Slice.{is_empty, schedule_slot, settle_slot, resume, cancel, run_calls}

-- How often `OnDone` was called.
abbrev pub dones : List Called → ℕ
dones [] = 0
dones (on_event e ∷ l) = dones l
dones (on_done t ∷ l) = suc (dones l)
dones (on_finished ∷ l) = dones l

-- Before the end there was no `OnDone`; at the end it is the last callback, and the `finished`
-- closure ran after it.
abbrev pub Shape : Bool → List Called → Type 0
Shape false l = dones l ≡ 0
Shape true (on_finished ∷ on_done t ∷ l) = dones l ≡ 0
Shape true _ = ⊥

abbrev pub has : Option Terminal → Bool
has none = false
has (some t) = true

-- `total` is the bridge counter when the request was submitted, this request included.
pub record Core (cap total : ℕ) (s : Slot) : Type 0 where
  pub open_terminal : is_running s.state.state ≡ true → s.terminal ≡ none
  pub open_ready : is_running s.state.state ≡ true → s.done_ready ≡ false
  pub open_flag : is_running s.state.state ≡ true → s.finished_flag ≡ false
  pub open_space : is_running s.state.state ≡ true → s.space + length s.queue ≡ cap
  pub bounded : length s.queue ≤ cap
  pub closing_ready : is_running s.state.state ≡ false → s.done_ready ≡ true
  pub closing_terminal :
      is_running s.state.state ≡ false → s.finished_flag ≡ false → has s.terminal ≡ true
  pub closed_queue : s.finished_flag ≡ true → s.queue ≡ []
  pub closed_terminal : s.finished_flag ≡ true → s.terminal ≡ none
  pub closed_pause : s.finished_flag ≡ true → s.state.paused ≡ false
  pub once : s.finished ≡ not s.finished_flag
  pub shape : Shape s.finished_flag s.log
  pub unpaused : s.state.paused ≡ false → s.state.pause_guard ≡ none
  pub commits : is_empty s.queue ≡ false → s.state.committed ≡ true
  pub counted : s.counter ≡ (if s.finished_flag then total - 1 else total)
  pub fits : (0 < total) × (total < 2 ^ 32)

module _ {cap total : ℕ} where
  pub schedule_slot-Core : {s : Slot} → Core cap total s → Core cap total (schedule_slot s)
  unfolding schedule_slot
  schedule_slot-Core v = ground arith

  pub settle_slot-Core :
      (s : Slot) (t : Terminal) (discard : Bool)
      → Core cap total s
      → Core cap total (settle_slot s t discard)
  unfolding settle_slot
  settle_slot-Core s t discard v = ground arith

  pub resume-Core : (s : Slot) → Core cap total s → Core cap total (resume s).0
  unfolding resume
  resume-Core s v = ground arith

  pub cancel-Core : (s : Slot) → Core cap total s → Core cap total (cancel s).0
  unfolding cancel
  cancel-Core s v = ground arith

  pub run_calls-Core :
      (cs : List Call) (s : Slot) → Core cap total s → Core cap total (run_calls cs s)
  unfolding run_calls
  run_calls-Core [] s v = v
  run_calls-Core (resumes ∷ cs) s v = run_calls-Core cs (resume s).0 (resume-Core s v)
  run_calls-Core (cancels ∷ cs) s v = run_calls-Core cs (cancel s).0 (cancel-Core s v)
