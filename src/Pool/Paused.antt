-- ===== src/Pool/Paused.antt =====
-- lib/src/client/pool.rs: how many streams of one connection can be paused.
use hyper4k.Prelude.{
  ℕ, zero, suc, ◌+◌, ◌%◌, ◌^◌, ◌<◌, ◌≡◌, refl, sym, ap, ◌∙◌, subst, true, false, some, List, [],
  ◌∷◌, ◌++◌, arith, lookup, lookup-insert_same,
}
use hyper4k.Pool.{
  ConnEntry, Pool, ids_of, put_entry, take_lease, try_entry, reuse_in, reuse, eligible,
  entry_closed, acquire_start, add_pause, pool_step, pool_run, PoolOp, starts, pauses,
}

abbrev pub times : ℕ → PoolOp → List PoolOp
times zero op = []
times (suc n) op = op ∷ times n op

abbrev pub shared_by : ℕ → ℕ → ConnEntry
shared_by active paused = record {
  multiplexed = true;
  idle = false;
  active = active;
  paused = paused;
  dead = false;
  sender_closed = false;
  has_driver = true;
}

-- The first connection of the key is `id`: a live HTTP/2 connection with so many streams.
pub record Shares (cap key id active paused : ℕ) (p : Pool) : Type 0 where
  pub open_pool : p.closed ≡ false
  pub capped : p.paused_cap ≡ cap
  pub others : List ℕ
  pub first : ids_of p key ≡ id ∷ others
  pub entry : lookup id p.entries ≡ some (shared_by active paused)

eligible_now : (p : Pool) (a : ℕ) → 0 < p.paused_cap → eligible p (shared_by a 0) ≡ true
unfolding eligible entry_closed
eligible_now p a h = ground arith

one_more :
    (p : Pool) (id a : ℕ)
    → a + 1 < 2 ^ 32
    → take_lease p id (shared_by a 0) ≡ some (put_entry p id (shared_by (a + 1) 0))
unfolding take_lease
one_more p id a h =
    ap (λ n. some (put_entry p id (shared_by n 0)))
      (let m : (a + 1) % 2 ^ 32 ≡ a + 1 = omega arith in m)

reuse_first :
    (p : Pool) (key id : ℕ) (others : List ℕ) (e : ConnEntry) (q : Pool)
    → ids_of p key ≡ id ∷ others
    → lookup id p.entries ≡ some e
    → eligible p e ≡ true
    → take_lease p id e ≡ some q
    → reuse p key ≡ some q
unfolding reuse reuse_in try_entry
reuse_first p key id others e q f l g t = ground arith

starts_reuses :
    (p : Pool) (key : ℕ) (q : Pool)
    → p.closed ≡ false
    → reuse p key ≡ some q
    → pool_step p (starts key) ≡ q
unfolding pool_step acquire_start
starts_reuses p key q c r = ground arith

pauses_one :
    (p : Pool) (id a b : ℕ)
    → b + 1 < 2 ^ 32
    → lookup id p.entries ≡ some (shared_by a b)
    → pool_step p (pauses id) ≡ put_entry p id (shared_by a (b + 1))
unfolding pool_step add_pause
pauses_one p id a b h l = ground arith

pool_run_once :
    (p : Pool) (op : PoolOp) (ops : List PoolOp)
    → pool_run p (op ∷ ops) ≡ pool_run (pool_step p op) ops
unfolding pool_run
pool_run_once p op ops = refl

pool_run_none : (p : Pool) → pool_run p [] ≡ p
unfolding pool_run
pool_run_none p = refl

module _ (cap key id : ℕ) where
  put_entry-Shares :
      (p : Pool) (a b c d : ℕ)
      → Shares cap key id a b p
      → Shares cap key id c d (put_entry p id (shared_by c d))
  unfolding put_entry
  put_entry-Shares p a b c d s = record {
    open_pool = s.open_pool;
    capped = s.capped;
    others = s.others;
    first = s.first;
    entry = lookup-insert_same id (shared_by c d) p.entries;
  }

  starts-Shares :
      (p : Pool) (a : ℕ)
      → 0 < cap
      → a + 1 < 2 ^ 32
      → Shares cap key id a 0 p
      → Shares cap key id (a + 1) 0 (pool_step p (starts key))
  starts-Shares p a pos fits s =
      subst (Shares cap key id (a + 1) 0)
        (sym (starts_reuses p key (put_entry p id (shared_by (a + 1) 0)) s.open_pool taken))
        (put_entry-Shares p a 0 (a + 1) 0 s)
    where
      taken : reuse p key ≡ some (put_entry p id (shared_by (a + 1) 0))
      taken =
          reuse_first p key id s.others (shared_by a 0) (put_entry p id (shared_by (a + 1) 0))
            s.first s.entry (eligible_now p a (subst (λ c. 0 < c) (sym s.capped) pos))
            (one_more p id a fits)

  pauses-Shares :
      (p : Pool) (a b : ℕ)
      → b + 1 < 2 ^ 32
      → Shares cap key id a b p
      → Shares cap key id a (b + 1) (pool_step p (pauses id))
  pauses-Shares p a b fits s =
      subst (Shares cap key id a (b + 1)) (sym (pauses_one p id a b fits s.entry))
        (put_entry-Shares p a b a (b + 1) s)

  starts_all :
      (n : ℕ) (p : Pool) (a : ℕ) (ops : List PoolOp)
      → 0 < cap
      → a + n < 2 ^ 32
      → Shares cap key id a 0 p
      → (q : Pool) × Shares cap key id (a + n) 0 q
        × (pool_run p (times n (starts key) ++ ops) ≡ pool_run q ops)
  starts_all zero p a ops pos fits s =
      (p, subst (λ k. Shares cap key id k 0 p) (let e : a ≡ a + 0 = omega arith in e) s, refl)
  starts_all (suc n) p a ops pos fits s =
      let (q, t, e) =
        starts_all n (pool_step p (starts key)) (a + 1) ops pos (omega arith)
          (starts-Shares p a pos (omega arith) s) in
      (
        q,
        subst (λ k. Shares cap key id k 0 q) (let e : a + 1 + n ≡ a + suc n = omega arith in e) t,
        pool_run_once p (starts key) (times n (starts key) ++ ops) ∙ e,
      )

  pauses_all :
      (n : ℕ) (p : Pool) (a b : ℕ)
      → b + n < 2 ^ 32
      → Shares cap key id a b p
      → Shares cap key id a (b + n) (pool_run p (times n (pauses id)))
  pauses_all zero p a b fits s =
      subst (Shares cap key id a (b + 0)) (sym (pool_run_none p))
        (subst (λ k. Shares cap key id a k p) (let e : b ≡ b + 0 = omega arith in e) s)
  pauses_all (suc n) p a b fits s =
      subst (Shares cap key id a (b + suc n))
        (sym (pool_run_once p (pauses id) (times n (pauses id))))
        (subst
          (λ k. Shares cap key id a k (pool_run (pool_step p (pauses id)) (times n (pauses id))))
          (let e : b + 1 + n ≡ b + suc n = omega arith in e)
          (pauses_all n (pool_step p (pauses id)) a (b + 1) (omega arith)
            (pauses-Shares p a b (omega arith) s)))

  -- The cap on paused streams is looked at only when a lease is taken. Any number of calls can share one
  -- live HTTP/2 connection, and when all their streams are paused after that, all of them are, whatever
  -- the cap.
  pub pauses-pass_cap :
      (p : Pool) (n : ℕ)
      → 0 < cap
      → n < 2 ^ 32
      → Shares cap key id 0 0 p
      → Shares cap key id n n (pool_run p (times n (starts key) ++ times n (pauses id)))
  pauses-pass_cap p n pos fits s =
      let (q, t, e) = starts_all n p 0 (times n (pauses id)) pos (omega arith) s in
      subst (Shares cap key id n n) (sym e) (
        subst (λ k. Shares cap key id n k (pool_run q (times n (pauses id))))
          (let z : 0 + n ≡ n = omega arith in z)
          (pauses_all n q n 0 (omega arith)
            (subst (λ k. Shares cap key id k 0 q) (let z : 0 + n ≡ n = omega arith in z) t)))
