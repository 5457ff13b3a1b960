-- ===== src/Pool/Growth.antt =====
-- lib/src/client/pool.rs: a new connection keeps the cap, and so does every run of the pool.
use hyper4k.Prelude.{
  ℕ, ◌+◌, ◌^◌, ◌≤◌, ◌<◌, ◌≡◌, refl, Bool, true, false, Option, none, some, List, [], ◌∷◌, ◌++◌,
  arith, ◌==◌, if◌then◌else◌, lookup, insert, remove, contains, lookup-insert, lookup-insert_same,
  lookup-remove, All, Bool-cases, inl, inr, ==_iff, subst, if_cases, sym,
}
use hyper4k.Pool.{
  ConnEntry, Pool, new_pool, entry_closed, put_entry, take_lease, ids_of, is_live, live_in, live,
  acquire_failed, register_entry, acquire_connected, drop_lease, add_pause, drop_pause, PoolOp,
  starts, locks, connects, connect_fails, drops_lease, pauses, resumes, peer_closes, shuts_down,
  pool_step, pool_run,
}
use hyper4k.Pool.Cap.{
  live_in_mono, live_in-append, change-Calms, put_entry-Calms, calm, acquire_start-Capped,
  acquire_locked-Capped, undial-Capped, shutdown-Capped, drop_lease-alive, Calms, Capped,
}

All-imp : {P Q : ℕ → Type 0} (xs : List ℕ) → ((x : ℕ) → P x → Q x) → All P xs → All Q xs
All-imp [] f h = tt
All-imp (x ∷ xs) f (h, hs) = (f x h, All-imp xs f hs)

All-snoc : (P : ℕ → Type 0) (xs : List ℕ) (n : ℕ) → All P xs → P n → All P (xs ++ n ∷ [])
All-snoc P [] n h k = (k, tt)
All-snoc P (x ∷ xs) n (h, hs) k = (h, All-snoc P xs n hs k)

module _ (p : Pool) (key : ℕ) (e : ConnEntry) where
  grown : Pool
  grown = register_entry p key e

  -- Entries from before are as live as they were.
  old_live :
      (id : ℕ) → id < p.next_id → is_live grown.entries id ≡ true → is_live p.entries id ≡ true
  unfolding grown register_entry
  old_live id h l = let k = lookup-insert p.next_id id e p.entries in ground arith

  old_ids :
      (ids : List ℕ)
      → All (λ id. id < p.next_id) ids
      → live_in grown.entries ids ≤ live_in p.entries ids
  old_ids ids h = live_in_mono p.entries grown.entries ids (All-imp ids old_live h)

  ids_of-grown_same : ids_of grown key ≡ ids_of p key ++ p.next_id ∷ []
  unfolding grown register_entry
  ids_of-grown_same =
      let k = lookup-insert_same key (ids_of p key ++ p.next_id ∷ []) p.conns in ground arith

  ids_of-grown_other : (j : ℕ) → (key == j) ≡ false → ids_of grown j ≡ ids_of p j
  unfolding grown register_entry
  ids_of-grown_other j h =
      let k = lookup-insert key j (ids_of p key ++ p.next_id ∷ []) p.conns in ground arith

  live-grown_same : Capped p → live grown key ≤ live p key + 1
  live-grown_same v =
      subst (λ xs. live_in grown.entries xs ≤ live p key + 1) (sym ids_of-grown_same)
        (let a = live_in-append grown.entries (ids_of p key) p.next_id in
          let b = old_ids (ids_of p key) (v.old key) in omega arith)

  live-grown_other : (j : ℕ) → (key == j) ≡ false → Capped p → live grown j ≤ live p j
  live-grown_other j h v =
      subst (λ xs. live_in grown.entries xs ≤ live p j) (sym (ids_of-grown_other j h))
        (old_ids (ids_of p j) (v.old j))

  register_entry-Capped :
      p.next_id + 1 < 2 ^ 64 → contains key p.dialling ≡ true → Capped p → Capped grown
  register_entry-Capped small dials v = record {
    some_room = unfold grown in unfold register_entry in v.some_room;
    cap = λ j. elim (Bool-cases (key == j)) [
      | inl same ↦
          subst (λ k. live grown k ≤ grown.max_conns_per_key) ((==_iff key j).0 same) cap_here
      | inr other ↦
          let l = live-grown_other j other v in
          let c = v.cap j in
          let m : grown.max_conns_per_key ≡ p.max_conns_per_key =
            unfold grown in unfold register_entry in refl in
          omega arith
    ];
    room = λ j h.
        let other = still_dialling j h in
        let l = live-grown_other j other.0 v in
        let r = v.room j other.1 in
        let m : grown.max_conns_per_key ≡ p.max_conns_per_key =
          unfold grown in unfold register_entry in refl in
        omega arith;
    old = λ j. elim (Bool-cases (key == j)) [
      | inl same ↦
          subst (λ k. All (λ id. id < grown.next_id) (ids_of grown k)) ((==_iff key j).0 same)
            (subst (All (λ id. id < grown.next_id)) (sym ids_of-grown_same) (
              All-snoc (λ id. id < grown.next_id) (ids_of p key) p.next_id (younger key)
                (omega (arith, next))))
      | inr other ↦
          subst (All (λ id. id < grown.next_id)) (sym (ids_of-grown_other j other)) (younger j)
    ];
  }
    where
      next : grown.next_id ≡ p.next_id + 1
      next = unfold grown in unfold register_entry in omega arith

      younger : (j : ℕ) → All (λ id. id < grown.next_id) (ids_of p j)
      younger j = All-imp (ids_of p j) (λ x h. omega (arith, next)) (v.old j)

      still_dialling :
          (j : ℕ)
          → contains j grown.dialling ≡ true
          → ((key == j) ≡ false) × (contains j p.dialling ≡ true)
      still_dialling j h =
          let h' : contains j (remove key p.dialling) ≡ true =
            unfold grown in unfold register_entry in h in
          let l = lookup-remove key j p.dialling in (ground arith, ground arith)

      cap_here : live grown key ≤ grown.max_conns_per_key
      cap_here =
          let l = live-grown_same v in
          let r = v.room key dials in
          let m : grown.max_conns_per_key ≡ p.max_conns_per_key =
            unfold grown in unfold register_entry in refl in
          omega arith

-- Leasing the new entry at once is as good as having put it there leased.
leased-Calms :
    (p : Pool) (key : ℕ) (e f : ConnEntry)
    → Calms (register_entry p key f) (put_entry (register_entry p key e) p.next_id f)
unfolding register_entry put_entry
leased-Calms p key e f = record {
  same_conns = refl;
  same_dialling = refl;
  same_id = refl;
  same_max = refl;
  quiet = λ id h.
      let a = lookup-insert p.next_id id f (insert p.next_id e p.entries) in
      let b = lookup-insert p.next_id id e p.entries in
      let c = lookup-insert p.next_id id f p.entries in ground arith;
}

leased-Capped :
    (p : Pool) (key : ℕ) (e f : ConnEntry)
    → p.next_id + 1 < 2 ^ 64
    → contains key p.dialling ≡ true
    → Capped p
    → Capped (put_entry (register_entry p key e) p.next_id f)
leased-Capped p key e f small dials v =
    calm _ _ (leased-Calms p key e f) (unfold grown in register_entry-Capped p key f small dials v)

acquire_connected-Capped :
    (p : Pool) (key : ℕ) (multiplexed sender_closed : Bool)
    → p.next_id + 1 < 2 ^ 64
    → contains key p.dialling ≡ true
    → Capped p
    → Capped (acquire_connected p key multiplexed sender_closed).0
unfolding acquire_connected take_lease
acquire_connected-Capped p key true sender_closed small dials v =
    leased-Capped p key _ _ small dials v
acquire_connected-Capped p key false sender_closed small dials v =
    leased-Capped p key _ _ small dials v

-- Ids do not wrap: fewer than 2^64 connections are ever made.
abbrev pub Fits : Pool → List PoolOp → Type 0
Fits p [] = Unit
Fits p (op ∷ ops) = (p.next_id + 1 < 2 ^ 64) × Fits (pool_step p op) ops

pool_step-Capped :
    (p : Pool) (op : PoolOp) → p.next_id + 1 < 2 ^ 64 → Capped p → Capped (pool_step p op)
unfolding pool_step
pool_step-Capped p (starts key) small v = acquire_start-Capped p key v
pool_step-Capped p (locks key) small v =
    if_cases Capped (contains key p.dialling) (λ _. v) (λ _. acquire_locked-Capped p key v)
pool_step-Capped p (connects key multiplexed sender_closed) small v =
    if_cases Capped (contains key p.dialling)
      (λ d. acquire_connected-Capped p key multiplexed sender_closed small d v) (λ _. v)
pool_step-Capped p (connect_fails key kind) small v =
    if_cases Capped (contains key p.dialling) (λ _. unfold acquire_failed in undial-Capped p key v)
      (λ _. v)
pool_step-Capped p (drops_lease id) small v = go (lookup id p.entries) refl
  where
    go :
        (o : Option ConnEntry)
        → lookup id p.entries ≡ o
        → Capped (elim o as (λ _. Pool) [
          | none ↦ p
          | some e ↦ if e.active == 0 then p else put_entry p id (drop_lease e)
        ])
    go none h = v
    go (some e) h =
        if_cases Capped (e.active == 0) (λ _. v)
          (λ _. calm p _ (put_entry-Calms p id e (drop_lease e) h (drop_lease-alive e)) v)
pool_step-Capped p (pauses id) small v =
    calm p _ (change-Calms add_pause (λ e h. unfold entry_closed in unfold add_pause in h) p id) v
pool_step-Capped p (resumes id) small v =
    calm p _ (change-Calms drop_pause (λ e h. unfold entry_closed in unfold drop_pause in h) p id) v
pool_step-Capped p (peer_closes id) small v =
    calm p _
      (change-Calms (λ e. record e { sender_closed = true })
        (λ e h. unfold entry_closed in ground arith) p id)
      v
pool_step-Capped p shuts_down small v = shutdown-Capped p v

pool_run-Capped : (p : Pool) (ops : List PoolOp) → Fits p ops → Capped p → Capped (pool_run p ops)
unfolding pool_run
pool_run-Capped p [] fits v = v
pool_run-Capped p (op ∷ ops) fits v =
    pool_run-Capped (pool_step p op) ops fits.1 (pool_step-Capped p op fits.0 v)

-- However acquires, connects, dropped leases, pauses, closing peers and a shutdown interleave, a key
-- never has more live connections than `max_conns_per_key`, and fewer while a call that holds its
-- dial lock connects.
pub pool_run-capped :
    (ops : List PoolOp) (key : ℕ)
    → Fits new_pool ops
    → let p = pool_run new_pool ops in
      (live p key ≤ p.max_conns_per_key)
      × (contains key p.dialling ≡ true → live p key < p.max_conns_per_key)
pool_run-capped ops key fits =
    let v = pool_run-Capped new_pool ops fits empty in (v.cap key, v.room key)
  where
    empty : Capped new_pool
    empty = unfold new_pool in unfold lookup in unfold live_in in ground arith
