-- ===== src/Client/Free/Tended.antt =====
-- lib/src/client/handle.rs: the table of a client and its bridge counter keep together.
use hyper4k.Prelude.{
  ℕ, suc, ◌+◌, ◌≤◌, ◌<◌, ◌^◌, ◌%◌, ◌≡◌, refl, ap, false, Option, none, List, [], ◌∷◌, All, ◌==◌,
  arith, length, lookup, if◌then◌else◌,
}
use hyper4k.Bridge.State.{Slot}
use hyper4k.Bridge.Invariant.{Idle}
use hyper4k.Bridge.Progress.{Wake}
use hyper4k.Client.Setup.{Client}
use hyper4k.Client.Requests.{settle_all}
use hyper4k.Client.Free.Table.{Apart}

-- A request that is not finished, with an id that has been given out; a worker will come to it when
-- it has something to deliver.
pub record Cared (room next : ℕ) (e : ℕ × Slot) : Type 0 where
  pub given_out : e.0 < next
  pub unfinished : e.1.finished_flag ≡ false
  pub total : ℕ
  pub idle : Idle room total e.1
  pub wake : Wake e.1

-- Every request in the table is counted by the bridge counter, and nothing else is; at most `k` ids
-- were given out since the counter was 0.
pub record Tended (k : ℕ) (c : Client) : Type 0 where
  pub entries : All (Cared c.queue_capacity c.next_id) c.requests
  pub apart : Apart c.requests
  pub counts : c.bridges ≡ length c.requests
  pub few : c.bridges ≤ k

pub Cared-fresh :
    (room next : ℕ) (m : List (ℕ × Slot)) → All (Cared room next) m → lookup next m ≡ none
unfolding lookup
Cared-fresh room next [] a = refl
Cared-fresh room next ((j, s) ∷ m) a =
    let g = a.0.given_out in let ih = Cared-fresh room next m a.1 in ground arith

Cared-later : {room next : ℕ} {e : ℕ × Slot} → Cared room next e → Cared room (next + 1) e
Cared-later v = record {
  given_out = let g = v.given_out in omega arith;
  unfinished = v.unfinished;
  total = v.total;
  idle = v.idle;
  wake = v.wake;
}

pub All-later :
    (room next : ℕ) (m : List (ℕ × Slot)) → All (Cared room next) m → All (Cared room (next + 1)) m
All-later room next [] a = tt
All-later room next (e ∷ m) a = (Cared-later a.0, All-later room next m a.1)

pub if_same : (id : ℕ) (o : Option Slot) → (if id == id then none else o) ≡ none
if_same id o = ground arith

pub no_wrap : (n : ℕ) → n + 1 < 2 ^ 64 → n + 1 ≡ (n + 1) % 2 ^ 64
no_wrap n h = ground arith

pub length-settle_all : (m : List (ℕ × Slot)) → length (settle_all m) ≡ length m
length-settle_all [] = refl
length-settle_all (e ∷ m) = ap suc (length-settle_all m)

absent-settle_all :
    (k : ℕ) (m : List (ℕ × Slot)) → lookup k m ≡ none → lookup k (settle_all m) ≡ none
unfolding lookup
absent-settle_all k [] h = refl
absent-settle_all k ((j, s) ∷ m) h = let ih = absent-settle_all k m in ground arith

pub Apart-settle_all : (m : List (ℕ × Slot)) → Apart m → Apart (settle_all m)
Apart-settle_all [] a = tt
Apart-settle_all ((j, s) ∷ m) a = (absent-settle_all j m a.0, Apart-settle_all m a.1)
