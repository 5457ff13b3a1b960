-- ===== src/Bridge/Overlap/Examples.antt =====
-- lib/src/client/bridge.rs: slices that other threads get into.
use hyper4k.Prelude.{◌≡◌, refl, true, false, List, [], ◌∷◌, arith, codes}
use hyper4k.Abi.{err_none}
use hyper4k.Bridge.State.{Terminal, headers, chunk, is_running, spawn}
use hyper4k.Bridge.Slice.{settle_slot, run_owned, after_rounds, rounds, round, wind_up}
use hyper4k.Bridge.Ops.{sends, settles, resumes, cancels, step, send, push, run, turns}
use hyper4k.Bridge.Examples.{consumer, consumer-Flows}
use hyper4k.Bridge.Overlap.{
  start_slice, end_slice, Turn, does, takes, leaves, take, leave_slot, turn, turns_of,
}
use hyper4k.Bridge.Invariant.{Idle}
use hyper4k.Bridge.Overlap.Invariant.{unmarked, overlapped-Idle}
use hyper4k.Bridge.Overlap.Bounced.{Leaving, bounced-hangs}
use hyper4k.Bridge.Overlap.Finishing.{submitted, overlapped-finishes}

abbrev complete : Terminal
complete = record { kind = err_none; protocol_code = 0; message = "" }

-- A worker has delivered the headers, and is about to leave.
abbrev delivered : List Turn
delivered = does (sends (headers 200 11 [])) ∷ takes ∷ []

about_to_leave : Leaving (turns_of consumer (submitted 1 8 1) delivered)
unfolding turns_of turn take step send push spawn start_slice run_owned after_rounds rounds round
    wind_up
about_to_leave = record {
  decided = refl;
  inside = refl;
  open_gate = refl;
  empty = refl;
  unpaused = refl;
  quiet = refl;
  unfinished = refl;
  unlisted = (refl, refl);
}

-- So the lost wake-up can happen to a response that is complete.
bounced-hangs_example :
    let lost =
      turns_of consumer
        (turns_of consumer (submitted 1 8 1) delivered)
        (does (settles complete false) ∷ takes ∷ leaves ∷ []) in
    (is_running lost.slot.state.state ≡ false)
    × (lost.slot.finished_flag ≡ false)
    × (turns_of consumer lost (does resumes ∷ takes ∷ does cancels ∷ []) ≡ lost)
bounced-hangs_example =
    bounced-hangs consumer (turns_of consumer (submitted 1 8 1) delivered) complete false
      (does resumes ∷ takes ∷ does cancels ∷ []) about_to_leave

-- The same without the second worker, and with a last chunk that comes while the first one is inside.
abbrev alone : List Turn
alone =
    does (sends (headers 200 11 []))
    ∷ takes
    ∷ does (sends (chunk (codes "x")))
    ∷ does (settles complete false)
    ∷ leaves
    ∷ []

overlapped-finishes_example :
    (run consumer (turns_of consumer (submitted 1 8 1) alone).slot (turns 1)).finished_flag ≡ true
unfolding turns_of turn take step send push spawn start_slice run_owned after_rounds rounds round
    wind_up settle_slot leave_slot end_slice
overlapped-finishes_example =
    overlapped-finishes consumer 1 8 1 alone 1 consumer-Flows (omega arith) (omega arith)
      ((λ e. cc), (refl, ((λ e. cc), ((λ e. cc), (tt, tt))))) refl refl (omega arith) (omega arith)

-- A second worker bounces, and the slot is not put back.
abbrev bounced : List Turn
bounced =
    does (sends (headers 200 11 [])) ∷ takes ∷ does (settles complete false) ∷ takes ∷ leaves ∷ []

overlapped-Idle_example : Idle 8 1 (unmarked (turns_of consumer (submitted 1 8 1) bounced).slot)
overlapped-Idle_example =
    overlapped-Idle consumer 1 8 1 bounced (omega arith) (omega arith)
      ((λ e. cc), (tt, ((λ e. cc), (tt, (tt, tt)))))
