-- ===== src/Client/Free/Ending.antt =====
-- lib/src/client/handle.rs: `hyper4k_client_free` gets past its wait.
use hyper4k.Prelude.{
  ℕ, ◌+◌, ◌*◌, ◌≤◌, ◌<◌, ◌^◌, ◌≡◌, sym, ap, subst, Option, none, some, List, [], ◌∷◌, All, arith,
  length,
}
use hyper4k.Bridge.State.{Callbacks, Slot}
use hyper4k.Bridge.Slice.{settle_slot}
use hyper4k.Bridge.Ops.{slice}
use hyper4k.Bridge.Progress.{Flows}
use hyper4k.Client.Setup.{Client}
use hyper4k.Client.Requests.{hyper4k_client_close, settle_all}
use hyper4k.Client.Free.{Event, Teardown, happens, wait_zero, teardown, hyper4k_client_free}
use hyper4k.Client.Free.Table.{Apart}
use hyper4k.Client.Free.Tended.{Cared, Tended}
use hyper4k.Client.Free.Keeping.{close-Tended, happens-Tended}
use hyper4k.Client.Free.Waiting.{given, Due, Ends, wait_zero-Ends}

settle_all-Due :
    (room next n : ℕ) (ids : List ℕ) (m : List (ℕ × Slot))
    → room ≤ slice * n
    → 0 < n
    → All (Cared room next) m
    → All (λ e. n ≤ given e.0 ids) m
    → All (Due ids) (settle_all m)
settle_all-Due room next n ids [] fits pos a g = tt
settle_all-Due room next n ids ((id, s) ∷ m) fits pos a g = (
  record {
    closed = unfold settle_slot in ground arith;
    enough = let q = a.0.idle.core.bounded in let t = g.0 in unfold settle_slot in ground arith;
    some_turn = let t = g.0 in omega arith;
  },
  settle_all-Due room next n ids m fits pos a.1 g.1,
)

-- The call is past its wait: the client as it is then, without a request, and what is torn down.
abbrev pub WaitEnds : Option (Client × List Teardown) → Type 0
WaitEnds r = (d : Client) × (r ≡ some (d, teardown d)) × (d.requests ≡ [])

module _ (cb : ℕ → Callbacks) (flows : (id : ℕ) → Flows (cb id)) (reserved : ℕ → ℕ) where
  free-ends :
      (c : Client) (ids : List ℕ)
      → Ends (wait_zero cb reserved (hyper4k_client_close c) ids)
      → WaitEnds (hyper4k_client_free cb reserved c ids)
  unfolding hyper4k_client_free
  free-ends c ids (d, e, empty) = (
    d,
    ap
        (λ o. elim o as (λ _. Option (Client × List Teardown)) [
          | none ↦ none
          | some x ↦ some (x, teardown x)
        ])
        e,
    empty,
  )

  -- If every operation on a request, a worker's slice included, ends before the next one on it begins,
  -- and every call on the client before the next call, then `free` does not wait for ever, whatever
  -- has been submitted, whatever operations there were on the requests, and whether `close` has been
  -- called before, as long as ids and counter have not overflowed: with consumers that always continue,
  -- it is enough that the workers come to each request that is left once for each eight places of its
  -- queue, in whatever order. The table is empty then, each request having left it when it was
  -- finished, and the tear-down begins.
  pub free-WaitEnds :
      (c : Client) (es : List Event) (n : ℕ) (ids : List ℕ)
      → c.requests ≡ []
      → c.bridges ≡ 0
      → length es < 2 ^ 32
      → c.next_id + length es < 2 ^ 64
      → (happens cb reserved c es).queue_capacity ≤ slice * n
      → 0 < n
      → All (λ e. n ≤ given e.0 ids) (happens cb reserved c es).requests
      → WaitEnds (hyper4k_client_free cb reserved (happens cb reserved c es) ids)
  free-WaitEnds c es n ids empty zero_bridges few small fits pos turns = free-ends d ids (
      wait_zero-Ends cb flows reserved (0 + length es) (hyper4k_client_close d) ids (omega arith)
        (close-Tended cb flows reserved (0 + length es) d tended)
        (unfold hyper4k_client_close in due))
    where
      d : Client
      d = happens cb reserved c es

      begun : Tended 0 c
      begun = record {
        entries = subst (All (Cared c.queue_capacity c.next_id)) (sym empty) tt;
        apart = subst Apart (sym empty) tt;
        counts = let l = ap length empty in ground arith;
        few = omega arith;
      }

      tended : Tended (0 + length es) d
      tended = happens-Tended cb flows reserved 0 c es (omega arith) small begun

      due : All (Due ids) (settle_all d.requests)
      due = settle_all-Due d.queue_capacity d.next_id n ids d.requests fits pos tended.entries turns
