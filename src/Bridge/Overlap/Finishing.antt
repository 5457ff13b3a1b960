-- ===== src/Bridge/Overlap/Finishing.antt =====
-- lib/src/client/bridge.rs: a request comes to its `OnDone` also when other threads get into a slice,
-- as long as no second worker does.
use hyper4k.Prelude.{
  ℕ, ◌+◌, ◌-◌, ◌*◌, ◌≤◌, ◌<◌, ◌^◌, ◌==◌, ◌≡◌, ◌≢◌, refl, sym, ap, ◌∙◌, subst, Bool, true, false,
  ◌||◌, Option, none, some, List, [], ◌∷◌, arith, length, ◌⊎◌, inl, inr, is_some, if◌then◌else◌,
  if_cases,
}
use hyper4k.Bridge.State.{Event, Callbacks, Slot, is_running, spawn}
use hyper4k.Bridge.Slice.{settle_slot, resume, cancel, is_empty, run_owned}
use hyper4k.Bridge.Ops.{
  Op, sends, settles, resumes, cancels, works, step, send, push, slice, run, turns,
}
use hyper4k.Bridge.Invariant.{Core, Idle, spawn-Idle, step-Idle, Held, run_owned-Held}
use hyper4k.Bridge.Progress.{Flows, Wake, Rests, run_owned-Rests, turns-finish}
use hyper4k.Bridge.Overlap.{
  start_slice, end_slice, Shared, Turn, does, takes, leaves, take, leave_slot, turn, turns_of,
}
use hyper4k.Bridge.Overlap.Splits.{step-running}

-- The owner will put the slot back when it leaves.
abbrev comes_back : Shared → Bool
comes_back o = elim o.owner [
  | none ↦ false
  | some more ↦ more || (if is_empty o.slot.queue then false else true)
]

-- Between two turns: as between two operations, but for the owner.
record Cared (cap total : ℕ) (o : Shared) : Type 0 where
  idle : Idle cap total (record (o.slot) { running = false })
  inside : o.slot.running ≡ is_some o.owner
  awake : o.slot.state.paused ≡ false
  listed :
      o.slot.finished_flag ≡ false
      → (is_empty o.slot.queue ≡ false) ⊎ (o.slot.done_ready ≡ true)
      → (0 < o.slot.ready) ⊎ (comes_back o ≡ true)

-- A second worker does not come while one is inside. (A turn that is both steps at once is not used.)
abbrev pub IsAlone : Shared → Turn → Type 0
IsAlone o (does op) = op ≢ works
IsAlone o takes = o.owner ≡ none
IsAlone o leaves = Unit

abbrev pub AllAlone : Callbacks → Shared → List Turn → Type 0
AllAlone cb o [] = Unit
AllAlone cb o (t ∷ ts) = IsAlone o t × AllAlone cb (turn cb o t) ts

-- What an operation of another thread does to a slot that is not paused: the slot is listed, or there
-- is no more to do in it than before.
abbrev Meanwhile : Slot → Slot → Type 0
Meanwhile s t =
    (t.running ≡ s.running)
    × (t.state.paused ≡ false)
    × ((0 < t.ready)
        ⊎ ((t.queue ≡ s.queue)
            × (t.done_ready ≡ s.done_ready)
            × (t.finished_flag ≡ s.finished_flag)
            × (t.ready ≡ s.ready)))

step-Meanwhile :
    (cb : Callbacks) (s : Slot) (op : Op)
    → op ≢ works
    → s.state.paused ≡ false
    → (s.scheduled ≡ true → 0 < s.ready)
    → Meanwhile s (step cb s op)
unfolding step
step-Meanwhile cb s (sends ev) n awake listed = unfold send in unfold push in ground arith
step-Meanwhile cb s (settles t discard) n awake listed = unfold settle_slot in ground arith
step-Meanwhile cb s resumes n awake listed = unfold resume in ground arith
step-Meanwhile cb s cancels n awake listed = unfold cancel in ground arith
step-Meanwhile cb s works n awake listed = absurd (n refl)

module _ (cb : Callbacks) (flows : Flows cb) (cap total : ℕ) where
  does-Cared :
      (o : Shared) (op : Op)
      → op ≢ works
      → Cared cap total o
      → Cared cap total (turn cb o (does op))
  unfolding turn
  does-Cared o op n v = record {
    idle =
        subst (Idle cap total) (sym (step-running cb o.slot op false n))
          (step-Idle cb (record (o.slot) { running = false }) op v.idle);
    inside = let m = meanwhile.0 in m ∙ v.inside;
    awake = meanwhile.1;
    listed = λ f d. go meanwhile.2 f d;
  }
    where
      back : List Event → Bool
      back q = elim o.owner [
        | none ↦ false
        | some more ↦ more || (if is_empty q then false else true)
      ]

      meanwhile : Meanwhile o.slot (step cb o.slot op)
      meanwhile = step-Meanwhile cb o.slot op n v.awake v.idle.listed

      go :
          ((0 < (step cb o.slot op).ready)
            ⊎ (((step cb o.slot op).queue ≡ o.slot.queue)
                × ((step cb o.slot op).done_ready ≡ o.slot.done_ready)
                × ((step cb o.slot op).finished_flag ≡ o.slot.finished_flag)
                × ((step cb o.slot op).ready ≡ o.slot.ready)))
          → (step cb o.slot op).finished_flag ≡ false
          → (is_empty (step cb o.slot op).queue ≡ false) ⊎ ((step cb o.slot op).done_ready ≡ true)
          → (0 < (step cb o.slot op).ready)
            ⊎ (comes_back (record o { slot = step cb o.slot op }) ≡ true)
      go (inl r) f d = inl r
      go (inr (q, ready, fin, left)) f d =
          subst (λ k. (0 < (step cb o.slot op).ready) ⊎ (back k ≡ true)) (sym q)
            (subst (λ k. (0 < k) ⊎ (back o.slot.queue ≡ true)) (sym left)
              (v.listed (sym fin ∙ f) (
                subst (λ k. (is_empty k ≡ false) ⊎ (o.slot.done_ready ≡ true)) q
                  (subst (λ k. (is_empty (step cb o.slot op).queue ≡ false) ⊎ (k ≡ true)) ready
                    d))))

  owned-Cared :
      (n : ℕ) (r : Slot × Bool)
      → Held cap total r.0
      → Rests n r
      → Cared cap total (record { slot = r.0; owner = some r.1 })
  owned-Cared n (t, more) h (awake, rests) = record {
    idle = ground arith;
    inside = h.busy;
    awake = awake;
    listed = λ f d. go rests f d;
  }
    where
      go :
          (t.finished_flag ≡ true)
            ⊎ ((more ≡ true) × (length t.queue ≡ n) × (0 < n))
            ⊎ ((t.queue ≡ []) × (t.done_ready ≡ false))
          → t.finished_flag ≡ false
          → (is_empty t.queue ≡ false) ⊎ (t.done_ready ≡ true)
          → (0 < t.ready) ⊎ ((more || (if is_empty t.queue then false else true)) ≡ true)
      go x f d = ground arith

  takes-Cared :
      (o : Shared) → o.owner ≡ none → Cared cap total o → Cared cap total (turn cb o takes)
  unfolding turn take
  takes-Cared o n v =
      if_cases (Cared cap total) (o.slot.ready == 0) (λ _. v)
        (λ _.
          subst
            (λ r.
              Cared cap total
                (record { slot = r.0; owner = elim r.1 [ none ↦ o.owner | some m ↦ some m ] }))
            (sym starts) (owned-Cared (length o.slot.queue - slice) owned held rests))
    where
      s : Slot
      s = record (o.slot) { ready = o.slot.ready - 1 }

      owned : Slot × Bool
      owned = run_owned cb slice (record s { running = true })

      free : s.running ≡ false
      free = v.inside ∙ ap is_some n

      starts : start_slice cb slice s ≡ (owned.0, some owned.1)
      starts =
          unfold start_slice in
          ap (λ b. if b then (record s { scheduled = false }, none) else (owned.0, some owned.1))
            free

      core : Core cap total (record s { running = true })
      core = let c = v.idle.core in ground arith

      held : Held cap total owned.0
      held =
          run_owned-Held cb slice (record s { running = true }) core refl v.idle.quiet v.idle.spent

      rests : Rests (length o.slot.queue - slice) owned
      rests =
          run_owned-Rests cb flows cap total slice (record s { running = true }) core refl
            v.idle.quiet v.idle.spent v.awake

  leave_slot-Cared :
      (o : Shared) (more : Bool)
      → o.owner ≡ some more
      → Cared cap total o
      → Cared cap total (leave_slot o more)
  unfolding leave_slot end_slice
  leave_slot-Cared o more at v =
      if_cases
        (λ (r : Slot × Bool). Cared cap total (record {
          slot = if r.1 then record (r.0) { ready = r.0.ready + 1 } else r.0;
          owner = none;
        }))
        o.slot.finished_flag
        (λ f. record {
          idle = v.idle;
          inside = refl;
          awake = v.awake;
          listed = λ g. absurd (let h = f in cc);
        })
        (λ f.
          if_cases (λ t. Cared cap total (record { slot = t; owner = none }))
            (more || (if is_empty o.slot.queue then false else true))
            (λ _. record {
              idle = let i = v.idle in ground arith;
              inside = refl;
              awake = v.awake;
              listed = λ g d. inl (omega arith);
            })
            (λ gone. record {
              idle = v.idle;
              inside = refl;
              awake = v.awake;
              listed = λ g d. stays gone (v.listed g d);
            }))
    where
      stays :
          (more || (if is_empty o.slot.queue then false else true)) ≡ false
          → (0 < o.slot.ready) ⊎ (comes_back o ≡ true)
          → (0 < o.slot.ready) ⊎ (false ≡ true)
      stays gone (inl r) = inl r
      stays gone (inr b) = inr (
          sym gone
          ∙ ap
              (λ k. elim k [
                | none ↦ false
                | some m ↦ m || (if is_empty o.slot.queue then false else true)
              ])
              (sym at)
          ∙ b)

  leaves-Cared : (o : Shared) → Cared cap total o → Cared cap total (turn cb o leaves)
  unfolding turn
  leaves-Cared o v = go o.owner refl
    where
      go :
          (w : Option Bool)
          → o.owner ≡ w
          → Cared cap total (elim w as (λ _. Shared) [ none ↦ o | some more ↦ leave_slot o more ])
      go none at = v
      go (some more) at = leave_slot-Cared o more at v

  turns_of-Cared :
      (o : Shared) (ts : List Turn)
      → AllAlone cb o ts
      → Cared cap total o
      → Cared cap total (turns_of cb o ts)
  unfolding turns_of
  turns_of-Cared o [] a v = v
  turns_of-Cared o (does op ∷ ts) a v =
      turns_of-Cared (turn cb o (does op)) ts a.1 (does-Cared o op a.0 v)
  turns_of-Cared o (takes ∷ ts) a v = turns_of-Cared (turn cb o takes) ts a.1 (takes-Cared o a.0 v)
  turns_of-Cared o (leaves ∷ ts) a v = turns_of-Cared (turn cb o leaves) ts a.1 (leaves-Cared o v)

abbrev pub submitted : ℕ → ℕ → ℕ → Shared
submitted id cap total = record { slot = spawn id cap total; owner = none }

-- Take a history in which sends, settlements, resumes and cancels come between the slices of the workers,
-- or inside one between its last look at the slot and its end, and in which no second worker takes the
-- slot off the ready queue while one is inside. Whatever they were: with a consumer that always
-- continues, a request that has been settled, and that no worker is inside, is finished by enough
-- turns of a worker, one after the other, eight events for each.
pub overlapped-finishes :
    (cb : Callbacks) (id cap total : ℕ) (ts : List Turn) (n : ℕ)
    → Flows cb
    → 0 < total
    → total < 2 ^ 32
    → AllAlone cb (submitted id cap total) ts
    → (turns_of cb (submitted id cap total) ts).owner ≡ none
    → is_running (turns_of cb (submitted id cap total) ts).slot.state.state ≡ false
    → length (turns_of cb (submitted id cap total) ts).slot.queue ≤ slice * n
    → 0 < n
    → (run cb (turns_of cb (submitted id cap total) ts).slot (turns n)).finished_flag ≡ true
overlapped-finishes cb id cap total ts n flows pos fits alone left closed few some_turn =
    turns-finish cb flows cap total n o.slot idle wake closed few some_turn
  where
    o : Shared
    o = turns_of cb (submitted id cap total) ts

    start : Cared cap total (submitted id cap total)
    start = record {
      idle = let v = spawn-Idle id cap total pos fits in unfold spawn in ground arith;
      inside = unfold spawn in refl;
      awake = unfold spawn in refl;
      listed = unfold spawn in λ f d. ground arith;
    }

    v : Cared cap total o
    v = turns_of-Cared cb flows cap total (submitted id cap total) ts alone start

    free : o.slot.running ≡ false
    free = v.inside ∙ ap is_some left

    idle : Idle cap total o.slot
    idle = let i = v.idle in let f = free in ground arith

    wake : Wake o.slot
    wake = record { awake = v.awake; listed = λ f d. go (v.listed f d) }
      where
        go : (0 < o.slot.ready) ⊎ (comes_back o ≡ true) → 0 < o.slot.ready
        go (inl r) = r
        go (inr b) = absurd (nobody b)
          where
            nobody : comes_back o ≡ true → ⊥
            nobody b =
                let e =
                  ap
                    (λ k. elim k as (λ _. Bool) [
                      | none ↦ false
                      | some m ↦ m || (if is_empty o.slot.queue then false else true)
                    ])
                    left in
                cc
