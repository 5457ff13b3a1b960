-- ===== src/Bridge/Overlap/Splits.antt =====
-- lib/src/client/bridge.rs: a slice is its two steps, one after the other.
use hyper4k.Prelude.{
  ℕ, ◌≡◌, ◌≢◌, refl, Bool, true, false, ◌||◌, Option, none, some, if◌then◌else◌, arith,
}
use hyper4k.Bridge.State.{Callbacks, Slot}
use hyper4k.Bridge.Slice.{run_slice, run_owned, is_empty, settle_slot, resume, cancel}
use hyper4k.Bridge.Ops.{Op, sends, settles, resumes, cancels, works, step, send, push}
use hyper4k.Bridge.Overlap.{start_slice, end_slice}

-- What is left of a slice after its first step.
abbrev pub ended : Slot × Option Bool → Slot × Bool
ended (t, none) = (t, false)
ended (t, some more) = end_slice t more

pub run_slice-splits :
    (cb : Callbacks) (budget : ℕ) (s : Slot)
    → run_slice cb budget s ≡ ended (start_slice cb budget s)
unfolding run_slice start_slice end_slice
run_slice-splits cb budget s = go s.running (run_owned cb budget (record s { running = true }))
  where
    go :
        (b : Bool) (r : Slot × Bool)
        → (if b
            then (record s { scheduled = false }, false)
            else (let (t, more) = r in
                let u = record t { running = false } in
                if u.finished_flag
                then (u, false)
                else (u, more || (if is_empty u.queue then false else true))))
          ≡ ended (
              if b
              then (record s { scheduled = false }, none)
              else (let (t, more) = r in (t, some more)))
    go true r = refl
    go false r = refl

-- Who is inside does not matter to the other operations.
pub step-running :
    (cb : Callbacks) (s : Slot) (op : Op) (b : Bool)
    → op ≢ works
    → record (step cb s op) { running = b } ≡ step cb (record s { running = b }) op
unfolding step
step-running cb s (sends ev) b n = unfold send in unfold push in ground arith
step-running cb s (settles t discard) b n = unfold settle_slot in ground arith
step-running cb s resumes b n = unfold resume in ground arith
step-running cb s cancels b n = unfold cancel in ground arith
step-running cb s works b n = absurd (n refl)
