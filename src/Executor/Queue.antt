-- ===== src/Executor/Queue.antt =====
-- lib/src/client/executor.rs: what the executor promises, a first-in first-out queue whose operations
-- are atomic. There are no threads in it, no lock and no condition variable.
use hyper4k.Prelude.{
  ℕ, zero, suc, ◌≡◌, ap, Bool, if◌then◌else◌, ◌==◌, Option, none, some, List, [], ◌∷◌, ◌++◌,
}
use hyper4k.Bridge.Ops.{slice}

-- What a worker has in hand: a slot that it has not run yet, or one that has more to do.
pub data Hand : Type 0 where
  nothing : Hand
  fresh unfinished : ℕ → Hand

-- The slots, the queue, and the hand of each worker.
pub record Queue (S : Type 0) : Type 0 where
  pub slots : ℕ → S
  pub queue : List ℕ
  pub hands : List Hand

pub data Act : Type 0 where
  enters takes runs returns : ℕ → Act

abbrev pub hand_at : List Hand → ℕ → Option Hand
hand_at [] w = none
hand_at (h ∷ hs) zero = some h
hand_at (h ∷ hs) (suc w) = hand_at hs w

abbrev pub put_hand : List Hand → ℕ → Hand → List Hand
put_hand [] w x = []
put_hand (h ∷ hs) zero x = x ∷ hs
put_hand (h ∷ hs) (suc w) x = h ∷ put_hand hs w x

module _ {S : Type 0} (run_slice : ℕ → S → S × Bool) where
  abbrev pub take_front : Queue S → ℕ → Option Hand → List ℕ → Option (Queue S)
  take_front q w (some nothing) (i ∷ rest) =
      some (record q { queue = rest; hands = put_hand q.hands w (fresh i) })
  take_front q w _ _ = none

  abbrev pub run_fresh : Queue S → ℕ → Option Hand → Option (Queue S)
  run_fresh q w (some (fresh i)) =
      let (s, more) = run_slice slice (q.slots i) in
      some (record q {
        slots = λ j. if j == i then s else q.slots j;
        hands = put_hand q.hands w (if more then unfinished i else nothing);
      })
  run_fresh q w _ = none

  abbrev pub put_back : Queue S → ℕ → Option Hand → Option (Queue S)
  put_back q w (some (unfinished i)) =
      some (record q { queue = q.queue ++ i ∷ []; hands = put_hand q.hands w nothing })
  put_back q w _ = none

  -- The specification; `none` for what it does not allow.
  abbrev pub act : Queue S → Act → Option (Queue S)
  act q (enters i) = some (record q { queue = q.queue ++ i ∷ [] })
  act q (takes w) = take_front q w (hand_at q.hands w) q.queue
  act q (runs w) = run_fresh q w (hand_at q.hands w)
  act q (returns w) = put_back q w (hand_at q.hands w)

  abbrev pub acts : Queue S → List Act → Option (Queue S)
  acts q [] = some q
  acts q (a ∷ as_) = elim (act q a) [ none ↦ none | some r ↦ acts r as_ ]

  abbrev pub made : (ℕ → S) → List ℕ → List Hand → Option (Queue S)
  made slots queue hands = some (record { slots = slots; queue = queue; hands = hands })

  pub alone : (q r : Queue S) (a : Act) → act q a ≡ some r → acts q (a ∷ []) ≡ some r
  alone q r a h = ap (λ o. elim o as (λ _. Option (Queue S)) [ none ↦ none | some t ↦ some t ]) h

  pub acts-append :
      (q r : Queue S) (as_ bs : List Act) → acts q as_ ≡ some r → acts q (as_ ++ bs) ≡ acts r bs
  acts-append q r [] bs h =
      ap (λ o. elim o as (λ _. Option (Queue S)) [ none ↦ none | some t ↦ acts t bs ]) h
  acts-append q r (a ∷ as_) bs h = go (act q a) (λ t. acts-append t r as_ bs) h
    where
      go :
          (o : Option (Queue S))
          → ((t : Queue S) → acts t as_ ≡ some r → acts t (as_ ++ bs) ≡ acts r bs)
          → elim o as (λ _. Option (Queue S)) [ none ↦ none | some t ↦ acts t as_ ] ≡ some r
          → elim o as (λ _. Option (Queue S)) [ none ↦ none | some t ↦ acts t (as_ ++ bs) ]
            ≡ acts r bs
      go none ih k = cc
      go (some t) ih k = ih t k
