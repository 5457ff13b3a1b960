-- ===== src/Bridge/Delivery/Rounds.antt =====
-- lib/src/client/bridge.rs: what the delivery loop does to the gate, the queue and the callbacks.
use hyper4k.Prelude.{
  ℕ, zero, suc, ◌+◌, ◌≡◌, refl, ℤ, Bool, true, false, Option, none, some, List, [], ◌∷◌, ◌++◌,
  arith, append_assoc, if_cases, if◌then◌else◌,
}
use hyper4k.Bridge.State.{
  Bytes, Event, headers, chunk, Called, on_event, on_done, on_finished, Reaction, Callbacks, Slot,
  Call, resumes, cancels, is_running, is_discard, discarding,
}
use hyper4k.Bridge.Slice.{
  resume, cancel, run_calls, logs, deliver_chunk, deliver, Round, continues, breaks, returns_false,
  react, set_in_callback, deliver_event, take_event, round, rounds,
}

-- The events that were delivered, oldest first.
abbrev pub history : List Called → List Event
history [] = []
history (on_event e ∷ l) = history l ++ e ∷ []
history (on_done t ∷ l) = history l
history (on_finished ∷ l) = history l

abbrev pub is_given {ℓ} : {A : Type ℓ} → Option A → Bool
is_given none = false
is_given (some a) = true

-- The events for which there is a callback: with `on_chunk` NULL the chunks are dropped.
abbrev pub shown : Callbacks → List Event → List Event
shown cb [] = []
shown cb (headers status version hs ∷ es) = headers status version hs ∷ shown cb es
shown cb (chunk b ∷ es) = if is_given cb.on_chunk then chunk b ∷ shown cb es else shown cb es

pub shown-append :
    (cb : Callbacks) (xs ys : List Event) → shown cb (xs ++ ys) ≡ shown cb xs ++ shown cb ys
shown-append cb [] ys = refl
shown-append cb (headers status version hs ∷ xs) ys = ground (arith, shown-append cb xs ys)
shown-append cb (chunk b ∷ xs) ys = ground (arith, shown-append cb xs ys)

-- What was delivered, and then what is queued.
abbrev pub account : Callbacks → Slot → List Event
account cb s = history s.log ++ shown cb s.queue

pub record Follows (cb : Callbacks) (s t : Slot) : Type 0 where
  pub gate : is_running s.state.state ≡ false → t.state.state ≡ s.state.state
  pub ending : is_running s.state.state ≡ false → t.terminal ≡ s.terminal
  pub commit : t.state.committed ≡ s.state.committed
  pub flag : t.finished_flag ≡ s.finished_flag
  pub closure : t.finished ≡ s.finished
  pub still : s.queue ≡ [] → (t.log ≡ s.log) × (t.queue ≡ [])
  pub silent : is_discard s.state.state ≡ true → history t.log ≡ history s.log
  pub fifo : is_discard t.state.state ≡ false → account cb t ≡ account cb s

abbrev pub OnNext : (Slot → Type 0) → Round → Type 0
OnNext P (continues s) = P s
OnNext P (breaks s) = P s
OnNext P (returns_false s) = P s

-- The slot when its first event has left the queue.
abbrev popped : Slot → List Event → Slot
popped s rest = record s { queue = rest; space = s.space + 1 }

module _ (cb : Callbacks) where
  pub Follows-trans : {s t u : Slot} → Follows cb s t → Follows cb t u → Follows cb s u
  Follows-trans v w = ground arith

  resume-Follows : (s : Slot) → Follows cb s (resume s).0
  unfolding resume
  resume-Follows s = ground arith

  cancel-Follows : (s : Slot) → Follows cb s (cancel s).0
  unfolding cancel
  cancel-Follows s = ground arith

  run_calls-Follows : (cs : List Call) (s : Slot) → Follows cb s (run_calls cs s)
  unfolding run_calls
  run_calls-Follows [] s = ground arith
  run_calls-Follows (resumes ∷ cs) s =
      Follows-trans (resume-Follows s) (run_calls-Follows cs (resume s).0)
  run_calls-Follows (cancels ∷ cs) s =
      Follows-trans (cancel-Follows s) (run_calls-Follows cs (cancel s).0)

  logs-Follows :
      (s : Slot) (ev : Event) (rest : List Event)
      → s.queue ≡ ev ∷ rest
      → is_discard s.state.state ≡ false
      → shown cb (ev ∷ []) ≡ ev ∷ []
      → Follows cb s (logs (set_in_callback true (popped s rest)) (on_event ev))
  logs-Follows s ev rest e d h = record {
    gate = λ _. refl;
    ending = λ _. refl;
    commit = refl;
    flag = refl;
    closure = refl;
    still = λ k. cc;
    silent = λ k. cc;
    fifo = λ _. ground (
      arith,
      shown-append cb (ev ∷ []) rest,
      append_assoc (history s.log) (ev ∷ []) (shown cb rest),
    );
  }

  deliver_chunk-Follows :
      (f : Option (List Called → Bytes → Reaction)) (s : Slot) (b : Bytes) (rest : List Event)
      → cb.on_chunk ≡ f
      → s.queue ≡ chunk b ∷ rest
      → is_discard s.state.state ≡ false
      → Follows cb s (deliver_chunk f (set_in_callback true (popped s rest)) b).0
  unfolding deliver_chunk
  deliver_chunk-Follows none s b rest given e d = ground arith
  deliver_chunk-Follows (some f) s b rest given e d =
      Follows-trans (logs-Follows s (chunk b) rest e d (ground arith))
        (run_calls-Follows (f s.log b).calls _)

  deliver-Follows :
      (s : Slot) (ev : Event) (rest : List Event)
      → s.queue ≡ ev ∷ rest
      → is_discard s.state.state ≡ false
      → Follows cb s (deliver cb (set_in_callback true (popped s rest)) ev).0
  unfolding deliver
  deliver-Follows s (headers status version hs) rest e d =
      Follows-trans (logs-Follows s (headers status version hs) rest e d refl)
        (run_calls-Follows (cb.on_headers s.log status version hs).calls _)
  deliver-Follows s (chunk b) rest e d = deliver_chunk-Follows cb.on_chunk s b rest refl e d

  react-Follows :
      (s t : Slot) (action : Option ℤ)
      → Follows cb s t
      → OnNext (Follows cb s) (react (set_in_callback false t) action)
  unfolding react
  react-Follows s t none v = ground arith
  react-Follows s t (some a) v = ground arith

  take_event-Follows :
      (s : Slot) (q : List Event) → s.queue ≡ q → OnNext (Follows cb s) (take_event cb s q)
  unfolding take_event deliver_event discarding
  take_event-Follows s [] e = ground arith
  take_event-Follows s (ev ∷ rest) e =
      if_cases (OnNext (Follows cb s)) (is_discard s.state.state) (λ d. ground arith)
        (λ d.
          react-Follows s _ (deliver cb (set_in_callback true (popped s rest)) ev).1
            (deliver-Follows s ev rest e d))

  round-Follows : (s : Slot) → OnNext (Follows cb s) (round cb s)
  unfolding round
  round-Follows s =
      if_cases (OnNext (Follows cb s)) s.state.paused (λ _. ground arith)
        (λ _. take_event-Follows s s.queue refl)

  pub rounds-Follows : (budget : ℕ) (s : Slot) → OnNext (Follows cb s) (rounds cb budget s)
  unfolding rounds
  rounds-Follows zero s = ground arith
  rounds-Follows (suc budget) s = go (rounds-Follows budget) (round cb s) (round-Follows s)
    where
      extend :
          (t : Slot)
          → Follows cb s t
          → (r : Round) → OnNext (Follows cb t) r
          → OnNext (Follows cb s) r
      extend t v (continues u) w = Follows-trans v w
      extend t v (breaks u) w = Follows-trans v w
      extend t v (returns_false u) w = Follows-trans v w

      go :
          ((t : Slot) → OnNext (Follows cb t) (rounds cb budget t))
          → (r : Round) → OnNext (Follows cb s) r
          → OnNext (Follows cb s) (elim r [
            | continues t ↦ rounds cb budget t
            | breaks t ↦ breaks t
            | returns_false t ↦ returns_false t
          ])
      go ih (continues t) v = extend t v (rounds cb budget t) (ih t)
      go ih (breaks t) v = v
      go ih (returns_false t) v = v
