-- ===== src/Client/Free/Waiting.antt =====
-- lib/src/client/handle.rs: the wait of `hyper4k_client_free` comes to an end.
use hyper4k.Prelude.{
  ℕ, ◌+◌, ◌-◌, ◌*◌, ◌≤◌, ◌<◌, ◌^◌, ◌≡◌, ◌≢◌, refl, ap, subst, true, false, Option, none, some, List,
  [], ◌∷◌, All, ◌==◌, arith, length, lookup, insert, remove, if_cases, if◌then◌else◌, ◌⊎◌, inl, inr,
}
use hyper4k.Bridge.State.{Callbacks, Slot, is_running}
use hyper4k.Bridge.Ops.{slice, work, works, step}
use hyper4k.Bridge.Invariant.{step-Idle}
use hyper4k.Bridge.Delivery.{step-Advances}
use hyper4k.Bridge.Progress.{Flows, work-Wake}
use hyper4k.Client.Setup.{Client}
use hyper4k.Client.Requests.{cleanup}
use hyper4k.Client.Free.{settled, on_request, wait_zero}
use hyper4k.Client.Free.Table.{All-lookup, All-remove, remove-absent}
use hyper4k.Client.Free.Tended.{Cared, Tended}
use hyper4k.Client.Free.Keeping.{on_request-Tended}

-- How many of the turns are for the request.
abbrev pub given : ℕ → List ℕ → ℕ
given id [] = 0
given id (j ∷ ids) = (if j == id then 1 else 0) + given id ids

-- A settled request that the turns still to come are enough for, eight events each.
pub record Due (ids : List ℕ) (e : ℕ × Slot) : Type 0 where
  pub closed : is_running e.1.state.state ≡ false
  pub enough : length e.1.queue ≤ slice * given e.0 ids
  pub some_turn : 0 < given e.0 ids

All-both :
    (P Q R : ℕ × Slot → Type 0) (m : List (ℕ × Slot))
    → ((e : ℕ × Slot) → P e → Q e → R e)
    → All P m
    → All Q m
    → All R m
All-both P Q R [] f a b = tt
All-both P Q R (e ∷ m) f a b = (f e a.0 b.0, All-both P Q R m f a.1 b.1)

Due-other : (j id : ℕ) (ids : List ℕ) (s : Slot) → id ≢ j → Due (j ∷ ids) (id, s) → Due ids (id, s)
Due-other j id ids s n d = record {
  closed = d.closed;
  enough = let e = d.enough in ground arith;
  some_turn = let e = d.some_turn in ground arith;
}

-- The wait ends, and nothing is left in the table.
abbrev pub Ends : Option Client → Type 0
Ends r = (d : Client) × (r ≡ some d) × (d.requests ≡ [])

module _ (cb : ℕ → Callbacks) (flows : (id : ℕ) → Flows (cb id)) (reserved : ℕ → ℕ) where
  turn-Due :
      (room next id : ℕ) (ids : List ℕ) (s : Slot)
      → Cared room next (id, s)
      → Due (id ∷ ids) (id, s)
      → (step (cb id) s works).finished_flag ≡ false
      → Due ids (id, step (cb id) s works)
  turn-Due room next id ids s v d f = go (
      (work-Wake (cb id) (flows id) room v.total s v.idle v.wake).1
        (v.wake.listed v.unfinished (inr (v.idle.core.closing_ready d.closed))))
    where
      shut : is_running (step (cb id) s works).state.state ≡ false
      shut = let a = step-Advances (cb id) s works refl in let c = d.closed in ground arith

      go :
          ((work (cb id) s).finished_flag ≡ true)
            ⊎ (length (work (cb id) s).queue ≡ length s.queue - slice) × (slice < length s.queue)
            ⊎ ((work (cb id) s).done_ready ≡ false)
          → Due ids (id, step (cb id) s works)
      go (inl t) = let t' : (step (cb id) s works).finished_flag ≡ true = unfold step in t in cc
      go (inr (inl (e, more))) = record {
        closed = shut;
        enough = let n = d.enough in unfold step in ground arith;
        some_turn = let n = d.enough in ground arith;
      }
      go (inr (inr r)) =
          let c = (step-Idle (cb id) s works v.idle).core.closing_ready shut in
          let r' : (step (cb id) s works).done_ready ≡ false = unfold step in r in cc

  turn-All :
      (k : ℕ) (c : Client) (id : ℕ) (ids : List ℕ)
      → Tended k c
      → All (Due (id ∷ ids)) c.requests
      → All (Due ids) (on_request cb reserved c id works).requests
  unfolding on_request
  turn-All k c id ids v due = go (lookup id c.requests) refl
    where
      others : All (Due ids) (remove id c.requests)
      others =
          All-remove (Due (id ∷ ids)) (Due ids) id c.requests (λ j s n d. Due-other id j ids s n d)
            due

      go :
          (o : Option Slot)
          → lookup id c.requests ≡ o
          → All
              (Due ids)
              (elim o as (λ _. Client) [
                | none ↦ c
                | some s ↦ settled cb reserved c id (step (cb id) s works)
              ]).requests
      go none at = subst (All (Due ids)) (remove-absent id c.requests at) others
      go (some s) at =
          unfold settled in
          if_cases (λ (d : Client). All (Due ids) d.requests) (step (cb id) s works).finished_flag
            (λ _. unfold cleanup in others)
            (λ f.
              unfold insert in
              (
                turn-Due c.queue_capacity c.next_id id ids s
                    (All-lookup (Cared c.queue_capacity c.next_id) id c.requests s v.entries at)
                    (All-lookup (Due (id ∷ ids)) id c.requests s due at) f,
                others,
              ))

  at_zero : (k : ℕ) (c : Client) → Tended k c → (c.bridges == 0) ≡ true → c.requests ≡ []
  at_zero k c v z = go c.requests (let n = v.counts in ground arith)
    where
      go : (m : List (ℕ × Slot)) → length m ≡ 0 → m ≡ []
      go [] e = refl
      go (x ∷ m) e = absurd (omega arith)

  without_turns : (c : Client) → All (Due []) c.requests → c.requests ≡ []
  without_turns c a = go c.requests a
    where
      go : (m : List (ℕ × Slot)) → All (Due []) m → m ≡ []
      go [] a = refl
      go (x ∷ m) a = let n = a.0.some_turn in absurd (omega arith)

  pub wait_zero-Ends :
      (k : ℕ) (c : Client) (ids : List ℕ)
      → k < 2 ^ 32
      → Tended k c
      → All (Due ids) c.requests
      → Ends (wait_zero cb reserved c ids)
  unfolding wait_zero
  wait_zero-Ends k c [] small v due =
      let empty = without_turns c due in
      let counts = v.counts in let l = ap length empty in (c, ground arith, empty)
  wait_zero-Ends k c (id ∷ ids) small v due =
      if_cases Ends (c.bridges == 0) (λ z. (c, refl, at_zero k c v z))
        (λ _.
          wait_zero-Ends k (on_request cb reserved c id works) ids small
            (on_request-Tended cb flows reserved k c id works small v) (turn-All k c id ids v due))
