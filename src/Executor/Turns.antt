-- ===== src/Executor/Turns.antt =====
-- lib/src/client/executor.rs: the order in which slots get their turns.
use hyper4k.Prelude.{
  ℕ, zero, suc, ◌+◌, ◌<◌, ◌≡◌, ap, ◌∙◌, Bool, true, false, if◌then◌else◌, Option, none, some, List,
  [], ◌∷◌, ◌++◌, append_assoc, length, arith, ◌⊎◌, inl, inr, if_cases,
}
use hyper4k.Executor.{
  Worker, looping, locking, about_to_wait, waiting, exited, running, requeueing, Executor,
  worker_at, push_back, schedule, move, pop_front, run_slot, advance_from, advance, Op, schedules,
  advances, stops, notifies_all, step, run,
}

module _ {S : Type 0} (run_slice : ℕ → S → S × Bool) where
  -- Whether a step takes a slot off the queue.
  abbrev pub pops_from : Executor S → Option Worker → ℕ
  pops_from e (some locking) = if e.locked then 0 else (elim e.ready [ [] ↦ 0 | _ ∷ _ ↦ 1 ])
  pops_from e _ = 0

  abbrev pub pops : Executor S → Op → ℕ
  pops e (advances w) = pops_from e (worker_at e.workers w)
  pops e _ = 0

  -- How many slots are taken off the queue in a run.
  abbrev pub turns : Executor S → List Op → ℕ
  turns e [] = 0
  turns e (op ∷ ops) = pops e op + turns (step run_slice e op) ops

  -- The slot `i` stands behind `n` others.
  abbrev pub Behind : ℕ → ℕ → List ℕ → Type 0
  Behind i n ready =
      (front : List ℕ) × (back : List ℕ) × (ready ≡ front ++ i ∷ back) × (length front ≡ n)

  Behind-push : (i n j : ℕ) (ready : List ℕ) → Behind i n ready → Behind i n (ready ++ j ∷ [])
  Behind-push i n j ready (front, back, e, l) =
      (front, back ++ j ∷ [], ap (λ r. r ++ j ∷ []) e ∙ append_assoc front (i ∷ back) (j ∷ []), l)

  Behind-pop : (i n j : ℕ) (ready : List ℕ) → Behind i (suc n) (j ∷ ready) → Behind i n ready
  Behind-pop i n j ready ([], back, e, l) = absurd (omega arith)
  Behind-pop i n j ready (k ∷ front, back, e, l) =
      (front, back, (let same : ready ≡ front ++ i ∷ back = cc in same), omega arith)

  -- Of `n` in front, `p` have been taken, if the slot was not itself.
  abbrev pub Nearer : ℕ → ℕ → ℕ → List ℕ → Type 0
  Nearer i n p ready = (n < p) ⊎ ((m : ℕ) × Behind i m ready × (n ≡ m + p))

  stays : (i n : ℕ) {ready : List ℕ} → Behind i n ready → Nearer i n 0 ready
  stays i n b = inr (n, b, omega arith)

  pop_front-Nearer :
      (e : Executor S) (w i n : ℕ) (ready : List ℕ)
      → Behind i n ready
      → Nearer i n
          (elim ready as (λ _. ℕ) [ [] ↦ 0 | _ ∷ _ ↦ 1 ])
          (pop_front run_slice e w ready).ready
  unfolding pop_front
  pop_front-Nearer e w i n [] (([], back, p, l)) = cc
  pop_front-Nearer e w i n [] ((k ∷ front, back, p, l)) = cc
  pop_front-Nearer e w i zero (j ∷ rest) b = inl (omega arith)
  pop_front-Nearer e w i (suc n) (j ∷ rest) b = inr (n, Behind-pop i n j rest b, omega arith)

  advance_from-Nearer :
      (e : Executor S) (w i n : ℕ) (x : Option Worker)
      → Behind i n e.ready
      → Nearer i n (pops_from e x) (advance_from run_slice e w x).ready
  unfolding advance_from move run_slot push_back
  advance_from-Nearer e w i n none b = stays i n b
  advance_from-Nearer e w i n (some looping) b = stays i n b
  advance_from-Nearer e w i n (some about_to_wait) b = stays i n b
  advance_from-Nearer e w i n (some waiting) b = stays i n b
  advance_from-Nearer e w i n (some exited) b = stays i n b
  advance_from-Nearer e w i n (some (running j)) b = stays i n b
  advance_from-Nearer e w i n (some (requeueing j)) b =
      if_cases (λ (f : Executor S). Nearer i n 0 f.ready) e.locked (λ held. stays i n b)
        (λ free. stays i n (Behind-push i n j e.ready b))
  advance_from-Nearer e w i n (some locking) b = go e.locked
    where
      go :
          (l : Bool)
          → Nearer i n
              (if l then 0 else (elim e.ready as (λ _. ℕ) [ [] ↦ 0 | _ ∷ _ ↦ 1 ]))
              (if l then e else pop_front run_slice e w e.ready).ready
      go true = stays i n b
      go false = pop_front-Nearer e w i n e.ready b

  step-Nearer :
      (e : Executor S) (op : Op) (i n : ℕ)
      → Behind i n e.ready
      → Nearer i n (pops e op) (step run_slice e op).ready
  unfolding step schedule push_back advance
  step-Nearer e (schedules j) i n b =
      if_cases (λ (f : Executor S). Nearer i n 0 f.ready) e.locked (λ held. stays i n b)
        (λ free. stays i n (Behind-push i n j e.ready b))
  step-Nearer e stops i n b = stays i n b
  step-Nearer e notifies_all i n b = stays i n b
  step-Nearer e (advances w) i n b = advance_from-Nearer e w i n (worker_at e.workers w) b

  -- Round robin: a slot in the ready queue has its turn before any slot that is put in behind it,
  -- however often the slots in front come back. Whatever the threads do, when as many slots have been
  -- taken off the queue as stood in front of it, it is the next; until then it stands in the queue.
  pub run-Nearer :
      (e : Executor S) (ops : List Op) (i n : ℕ)
      → Behind i n e.ready
      → Nearer i n (turns e ops) (run run_slice e ops).ready
  unfolding run
  run-Nearer e [] i n b = stays i n b
  run-Nearer e (op ∷ ops) i n b =
      go (step-Nearer e op i n b) (λ m c. run-Nearer (step run_slice e op) ops i m c)
    where
      p : ℕ
      p = pops e op

      q : ℕ
      q = turns (step run_slice e op) ops

      after : List ℕ
      after = (run run_slice (step run_slice e op) ops).ready

      later : (m : ℕ) → n ≡ m + p → Nearer i m q after → Nearer i n (p + q) after
      later m e (inl taken) = inl (omega arith)
      later m e (inr (k, d, r)) = inr (k, d, omega arith)

      go :
          Nearer i n p (step run_slice e op).ready
          → ((m : ℕ) → Behind i m (step run_slice e op).ready → Nearer i m q after)
          → Nearer i n (p + q) after
      go (inl taken) h = inl (omega arith)
      go (inr (m, c, r)) h = later m r (h m c)
