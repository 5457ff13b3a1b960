-- ===== src/Bridge/Overlap/Bounced.antt =====
-- lib/src/client/bridge.rs: a slot that is settled while its owner leaves, and that a second worker
-- bounces off.
use hyper4k.Prelude.{ℕ, ◌≡◌, refl, sym, subst, Bool, true, false, none, some, List, [], ◌∷◌, arith}
use hyper4k.Bridge.State.{Callbacks, Terminal, is_running}
use hyper4k.Bridge.Slice.{settle_slot}
use hyper4k.Bridge.Ops.{sends, settles, resumes, cancels, works, step, send, work}
use hyper4k.Bridge.Slice.{resume, cancel}
use hyper4k.Bridge.Overlap.{
  start_slice, end_slice, Shared, Turn, does, takes, leaves, take, leave_slot, turn, turns_of,
}

-- The owner has found the queue empty and the request not settled, and is about to leave.
pub record Leaving (o : Shared) : Type 0 where
  pub decided : o.owner ≡ some false
  pub inside : o.slot.running ≡ true
  pub open_gate : is_running o.slot.state.state ≡ true
  pub empty : o.slot.queue ≡ []
  pub unpaused : o.slot.state.paused ≡ false
  pub quiet : o.slot.state.in_callback ≡ false
  pub unfinished : o.slot.finished_flag ≡ false
  pub unlisted : (o.slot.scheduled ≡ false) × (o.slot.ready ≡ 0)

-- A settled request for which no worker will come.
record Lost (o : Shared) : Type 0 where
  nobody : o.owner ≡ none
  closed : is_running o.slot.state.state ≡ false
  empty : o.slot.queue ≡ []
  unpaused : o.slot.state.paused ≡ false
  quiet : o.slot.state.in_callback ≡ false
  unfinished : o.slot.finished_flag ≡ false
  unlisted : o.slot.ready ≡ 0

turn-Lost : (cb : Callbacks) (o : Shared) (t : Turn) → Lost o → turn cb o t ≡ o
unfolding turn step take
turn-Lost cb o (does (sends ev)) l = unfold send in ground arith
turn-Lost cb o (does (settles x discard)) l = unfold settle_slot in ground arith
turn-Lost cb o (does resumes) l = unfold resume in ground arith
turn-Lost cb o (does cancels) l = unfold cancel in ground arith
turn-Lost cb o (does works) l = unfold work in ground arith
turn-Lost cb o takes l = ground arith
turn-Lost cb o leaves l = ground arith

turns_of-Lost : (cb : Callbacks) (o : Shared) (ts : List Turn) → Lost o → turns_of cb o ts ≡ o
unfolding turns_of
turns_of-Lost cb o [] l = refl
turns_of-Lost cb o (t ∷ ts) l = rw (turn-Lost cb o t l) (turns_of-Lost cb o ts l)

-- The owner is still inside, with the request settled, and `n` entries in the ready queue.
record Settled (n : ℕ) (o : Shared) : Type 0 where
  decided : o.owner ≡ some false
  inside : o.slot.running ≡ true
  closed : is_running o.slot.state.state ≡ false
  empty : o.slot.queue ≡ []
  unpaused : o.slot.state.paused ≡ false
  quiet : o.slot.state.in_callback ≡ false
  unfinished : o.slot.finished_flag ≡ false
  listed : o.slot.ready ≡ n

settles-Settled :
    (cb : Callbacks) (o : Shared) (x : Terminal) (discard : Bool)
    → Leaving o
    → Settled 1 (turn cb o (does (settles x discard)))
unfolding turn step settle_slot
settles-Settled cb o x discard v = ground arith

takes-Settled : (cb : Callbacks) (o : Shared) → Settled 1 o → Settled 0 (turn cb o takes)
unfolding turn take start_slice
takes-Settled cb o v = ground arith

leave_slot-Lost : (o : Shared) (m : Bool) → m ≡ false → Settled 0 o → Lost (leave_slot o m)
unfolding leave_slot end_slice
leave_slot-Lost o m e v = ground arith

leaves-Lost : (cb : Callbacks) (o : Shared) → Settled 0 o → Lost (turn cb o leaves)
unfolding turn
leaves-Lost cb o v =
    subst (λ m. Lost (elim m [ none ↦ o | some more ↦ leave_slot o more ])) (sym v.decided)
      (leave_slot-Lost o false refl v)

-- A lost wake-up: the owner has looked at `done_ready`; then the request is settled, which puts the
-- slot into the ready queue; a second worker takes it off and bounces, since the owner is still
-- inside; then the owner leaves, and looks at the queue only. The request is settled and not
-- finished, and nothing that follows changes it: `OnDone` is never called.
pub bounced-hangs :
    (cb : Callbacks) (o : Shared) (x : Terminal) (discard : Bool) (ts : List Turn)
    → Leaving o
    → let lost = turns_of cb o (does (settles x discard) ∷ takes ∷ leaves ∷ []) in
      (is_running lost.slot.state.state ≡ false)
      × (lost.slot.finished_flag ≡ false)
      × (turns_of cb lost ts ≡ lost)
unfolding turns_of
bounced-hangs cb o x discard ts v =
    let l = leaves-Lost cb _ (takes-Settled cb _ (settles-Settled cb o x discard v)) in
    (l.closed, l.unfinished, turns_of-Lost cb _ ts l)
