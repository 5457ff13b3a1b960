-- ===== src/Executor/Hands.antt =====
-- lib/src/client/executor.rs: the workers as the specification sees them, by what they have in hand.
use hyper4k.Prelude.{
  ℕ, zero, suc, ◌≡◌, refl, sym, ap, ◌∙◌, Bool, true, false, if◌then◌else◌, some, List, [], ◌∷◌,
}
use hyper4k.Executor.{
  Worker, looping, locking, about_to_wait, waiting, exited, running, requeueing, Executor,
  worker_at, put, notify_one, notify_all, wake,
}
use hyper4k.Executor.Queue.{Hand, nothing, fresh, unfinished, Queue, hand_at, put_hand}

abbrev pub hand : Worker → Hand
hand (running i) = fresh i
hand (requeueing i) = unfinished i
hand looping = nothing
hand locking = nothing
hand about_to_wait = nothing
hand waiting = nothing
hand exited = nothing

abbrev pub hands_of : List Worker → List Hand
hands_of [] = []
hands_of (w ∷ ws) = hand w ∷ hands_of ws

abbrev pub view : {S : Type 0} → Executor S → Queue S
view e = record { slots = e.slots; queue = e.ready; hands = hands_of e.workers }

pub hands-put :
    (ws : List Worker) (w : ℕ) (x : Worker)
    → hands_of (put ws w x) ≡ put_hand (hands_of ws) w (hand x)
hands-put [] w x = refl
hands-put (y ∷ ws) zero x = refl
hands-put (y ∷ ws) (suc w) x = ap (◌∷◌ (hand y)) (hands-put ws w x)

-- What a worker has in hand already, it may be given again.
pub put-hand_at :
    (ws : List Worker) (w : ℕ) (x y : Worker)
    → worker_at ws w ≡ some y
    → hand x ≡ hand y
    → hands_of (put ws w x) ≡ hands_of ws
put-hand_at [] w x y e h = refl
put-hand_at (z ∷ ws) zero x y e h =
    ap (λ k. k ∷ hands_of ws) (h ∙ sym (ap hand (let same : z ≡ y = cc in same)))
put-hand_at (z ∷ ws) (suc w) x y e h = ap (◌∷◌ (hand z)) (put-hand_at ws w x y e h)

pub hand_at-worker_at :
    (ws : List Worker) (w : ℕ) (y : Worker)
    → worker_at ws w ≡ some y
    → hand_at (hands_of ws) w ≡ some (hand y)
hand_at-worker_at [] w y e = cc
hand_at-worker_at (z ∷ ws) zero y e = ap (λ k. some (hand k)) (let same : z ≡ y = cc in same)
hand_at-worker_at (z ∷ ws) (suc w) y e = hand_at-worker_at ws w y e

pub hands-notify_one : (ws : List Worker) → hands_of (notify_one ws) ≡ hands_of ws
unfolding notify_one
hands-notify_one [] = refl
hands-notify_one (waiting ∷ ws) = refl
hands-notify_one (looping ∷ ws) = ap (◌∷◌ nothing) (hands-notify_one ws)
hands-notify_one (locking ∷ ws) = ap (◌∷◌ nothing) (hands-notify_one ws)
hands-notify_one (about_to_wait ∷ ws) = ap (◌∷◌ nothing) (hands-notify_one ws)
hands-notify_one (exited ∷ ws) = ap (◌∷◌ nothing) (hands-notify_one ws)
hands-notify_one (running i ∷ ws) = ap (◌∷◌ (fresh i)) (hands-notify_one ws)
hands-notify_one (requeueing i ∷ ws) = ap (◌∷◌ (unfinished i)) (hands-notify_one ws)

pub hand_next :
    (i : ℕ) (more : Bool)
    → (if more then unfinished i else nothing) ≡ hand (if more then requeueing i else looping)
hand_next i true = refl
hand_next i false = refl

hand-wake : (x : Worker) → hand (wake x) ≡ hand x
hand-wake waiting = refl
hand-wake looping = refl
hand-wake locking = refl
hand-wake about_to_wait = refl
hand-wake exited = refl
hand-wake (running i) = refl
hand-wake (requeueing i) = refl

pub hands-notify_all : (ws : List Worker) → hands_of (notify_all ws) ≡ hands_of ws
unfolding notify_all
hands-notify_all [] = refl
hands-notify_all (x ∷ ws) =
    ap (λ h. h ∷ hands_of (notify_all ws)) (hand-wake x) ∙ ap (◌∷◌ (hand x)) (hands-notify_all ws)
