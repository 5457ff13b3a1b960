-- ===== src/Client/Attempts/Replays.antt =====
-- lib/src/client/handle.rs and retry.rs: how often a request is put on the wire, and when again.
use hyper4k.Prelude.{ℕ, ◌+◌, ◌≤◌, ◌≡◌, ◌≢◌, Bool, true, false, ◌||◌, List, [], ◌∷◌, length, All}
use hyper4k.Bridge.State.{Slot}
use hyper4k.Client.Attempts.{Ends, acquires, Attempt, Wire, Task}

-- A call after which another may follow: the response was not committed, and the request is
-- provably unsent or its method is idempotent.
abbrev pub Replayable : Bool → Wire → Type 0
Replayable idempotent w = (w.committed ≡ false) × ((w.provably_unsent || idempotent) ≡ true)

-- The newest call is made with the response uncommitted, and each call before it was replayable.
abbrev pub Careful : Bool → List Wire → Type 0
Careful idempotent [] = Unit
Careful idempotent (w ∷ ws) = (w.committed ≡ false) × All (Replayable idempotent) ws

-- What a run of the loop with this budget may come to, with `wire` and `attempts` when it starts.
record Bounded (idempotent : Bool) (budget : ℕ) (wire : List Wire) (attempts : List Attempt)
    (r : Task) : Type 0 where
  careful : Careful idempotent r.wire
  calls : length r.wire ≤ length wire + budget + 1
  connects : r.ends ≡ acquires → length attempts ≤ budget

-- No connection is asked for once a response is there.
abbrev Delivers : Slot × Ends → Type 0
Delivers (s, e) = e ≢ acquires
