-- ===== src/Pool/Leases.antt =====
-- lib/src/client/pool.rs: an exclusive connection is leased to one call at a time.
use hyper4k.Prelude.{
  ℕ, ◌≤◌, ◌≡◌, refl, Bool, true, false, Option, none, some, List, [], ◌∷◌, arith, ◌==◌, leb,
  if◌then◌else◌, lookup, insert, contains, lookup-insert, if_cases, subst, ap,
}
use hyper4k.Abi.{err_connect}
use hyper4k.Pool.{
  ConnEntry, Pool, new_pool, eligible, put_entry, take_lease, try_entry, reuse_in, ids_of, reuse,
  live, acquire_start, acquire_locked, acquire_failed, register_entry, acquire_connected, Acquired,
  leased, fails, goes_on, drop_lease, add_pause, drop_pause, kill, kill_all, all_ids, shutdown,
  change, PoolOp, starts, locks, connects, connect_fails, drops_lease, pauses, resumes, peer_closes,
  shuts_down, pool_step, pool_run,
}

-- One lease at most, and none while the sender lies in the slot.
pub record Exclusive (e : ConnEntry) : Type 0 where
  pub one : e.multiplexed ≡ false → e.active ≤ 1
  pub free : e.multiplexed ≡ false → e.idle ≡ true → e.active ≡ 0

abbrev AllIn : List (ℕ × ConnEntry) → Type 0
AllIn es = (id : ℕ) (e : ConnEntry) → lookup id es ≡ some e → Exclusive e

insert-AllIn :
    (id : ℕ) (e : ConnEntry) (es : List (ℕ × ConnEntry))
    → Exclusive e
    → AllIn es
    → AllIn (insert id e es)
insert-AllIn id e es v all j f h = go (id == j) refl
  where
    go : (b : Bool) → (id == j) ≡ b → Exclusive f
    go true k = let l = lookup-insert id j e es in subst Exclusive (the_same (ground arith)) v
      where
        the : Option ConnEntry → ConnEntry
        the none = e
        the (some x) = x

        the_same : some e ≡ some f → e ≡ f
        the_same q = ap the q
    go false k = let l = lookup-insert id j e es in all j f (ground arith)

change-AllIn :
    (f : ConnEntry → ConnEntry)
    → ((e : ConnEntry) → Exclusive e → Exclusive (f e))
    → (p : Pool) (id : ℕ) → AllIn p.entries
    → AllIn (change f p id).entries
change-AllIn f keeps p id all = go (lookup id p.entries) refl
  where
    go :
        (o : Option ConnEntry)
        → lookup id p.entries ≡ o
        → AllIn (elim o as (λ _. Pool) [ none ↦ p | some e ↦ put_entry p id (f e) ]).entries
    go none h = all
    go (some e) h = unfold put_entry in insert-AllIn id (f e) p.entries (keeps e (all id e h)) all

abbrev Found : Option Pool → Type 0
Found none = Unit
Found (some q) = AllIn q.entries

take_lease-Found :
    (p : Pool) (id : ℕ) (e : ConnEntry) → Exclusive e → AllIn p.entries → Found (take_lease p id e)
unfolding take_lease put_entry
take_lease-Found p id e v all =
    if_cases Found e.multiplexed (λ m. insert-AllIn id _ p.entries (ground arith) all)
      (λ m. if_cases Found e.idle (λ i. insert-AllIn id _ p.entries (ground arith) all) (λ _. tt))

try_entry-Found : (p : Pool) (id : ℕ) → AllIn p.entries → Found (try_entry p id)
unfolding try_entry
try_entry-Found p id all = go (lookup id p.entries) refl
  where
    go :
        (o : Option ConnEntry)
        → lookup id p.entries ≡ o
        → Found (elim o as (λ _. Option Pool) [
          | none ↦ none
          | some e ↦ if eligible p e then take_lease p id e else none
        ])
    go none h = tt
    go (some e) h =
        if_cases Found (eligible p e) (λ _. take_lease-Found p id e (all id e h) all) (λ _. tt)

reuse_in-Found : (p : Pool) (ids : List ℕ) → AllIn p.entries → Found (reuse_in p ids)
unfolding reuse_in
reuse_in-Found p [] all = tt
reuse_in-Found p (id ∷ ids) all =
    go (try_entry p id) (try_entry-Found p id all) (reuse_in-Found p ids all)
  where
    go :
        (o : Option Pool)
        → Found o
        → Found (reuse_in p ids)
        → Found (elim o as (λ _. Option Pool) [ some q ↦ some q | none ↦ reuse_in p ids ])
    go none v w = w
    go (some q) v w = v

acquire_start-AllIn : (p : Pool) (key : ℕ) → AllIn p.entries → AllIn (acquire_start p key).0.entries
unfolding acquire_start reuse
acquire_start-AllIn p key all =
    if_cases (λ (r : Pool × Acquired). AllIn r.0.entries) p.closed (λ _. all)
      (λ _. go (reuse_in p (ids_of p key)) (reuse_in-Found p (ids_of p key) all))
  where
    go :
        (o : Option Pool)
        → Found o
        → AllIn
            (elim o as (λ _. Pool × Acquired) [
              | some q ↦ (q, leased)
              | none ↦ (p, goes_on)
            ]).0.entries
    go none c = all
    go (some q) c = c

acquire_locked-AllIn :
    (p : Pool) (key : ℕ) → AllIn p.entries → AllIn (acquire_locked p key).0.entries
unfolding acquire_locked reuse
acquire_locked-AllIn p key all =
    go (reuse_in p (ids_of p key)) (reuse_in-Found p (ids_of p key) all)
  where
    go :
        (o : Option Pool)
        → Found o
        → AllIn
            (elim o as (λ _. Pool × Acquired) [
              | some q ↦ (q, leased)
              | none ↦
                  if leb p.max_conns_per_key (live p key)
                  then (p, fails err_connect)
                  else (record p { dialling = insert key tt p.dialling }, goes_on)
            ]).0.entries
    go none c =
        if_cases (λ (r : Pool × Acquired). AllIn r.0.entries) (leb p.max_conns_per_key (live p key))
          (λ _. all) (λ _. all)
    go (some q) c = c

acquire_connected-AllIn :
    (p : Pool) (key : ℕ) (multiplexed sender_closed : Bool)
    → AllIn p.entries
    → AllIn (acquire_connected p key multiplexed sender_closed).0.entries
unfolding acquire_connected take_lease put_entry register_entry
acquire_connected-AllIn p key true sender_closed all =
    insert-AllIn p.next_id _ (insert p.next_id _ p.entries) (ground arith)
      (insert-AllIn p.next_id _ p.entries (ground arith) all)
acquire_connected-AllIn p key false sender_closed all =
    insert-AllIn p.next_id _ (insert p.next_id _ p.entries) (ground arith)
      (insert-AllIn p.next_id _ p.entries (ground arith) all)

kill_all-AllIn : (ids : List ℕ) (es : List (ℕ × ConnEntry)) → AllIn es → AllIn (kill_all ids es)
unfolding kill_all
kill_all-AllIn [] es all = all
kill_all-AllIn (id ∷ ids) es all = go (lookup id es) refl (λ fs w. kill_all-AllIn ids fs w)
  where
    go :
        (o : Option ConnEntry)
        → lookup id es ≡ o
        → ((fs : List (ℕ × ConnEntry)) → AllIn fs → AllIn (kill_all ids fs))
        → AllIn (elim o as (λ _. List (ℕ × ConnEntry)) [
          | none ↦ kill_all ids es
          | some e ↦ kill_all ids (insert id (kill e) es)
        ])
    go none h ih = ih es all
    go (some e) h ih =
        ih (insert id (kill e) es)
          (insert-AllIn id (kill e) es (let v = all id e h in ground arith) all)

drop_lease-Exclusive :
    (e : ConnEntry) → (e.active == 0) ≡ false → Exclusive e → Exclusive (drop_lease e)
unfolding drop_lease
drop_lease-Exclusive e some_lease v = record { one = ground arith; free = ground arith }

pool_step-AllIn : (p : Pool) (op : PoolOp) → AllIn p.entries → AllIn (pool_step p op).entries
unfolding pool_step
pool_step-AllIn p (starts key) all = acquire_start-AllIn p key all
pool_step-AllIn p (locks key) all =
    if_cases (λ (q : Pool). AllIn q.entries) (contains key p.dialling) (λ _. all)
      (λ _. acquire_locked-AllIn p key all)
pool_step-AllIn p (connects key multiplexed sender_closed) all =
    if_cases (λ (q : Pool). AllIn q.entries) (contains key p.dialling)
      (λ _. acquire_connected-AllIn p key multiplexed sender_closed all) (λ _. all)
pool_step-AllIn p (connect_fails key kind) all =
    if_cases (λ (q : Pool). AllIn q.entries) (contains key p.dialling)
      (λ _. unfold acquire_failed in all) (λ _. all)
pool_step-AllIn p (drops_lease id) all = go (lookup id p.entries) refl
  where
    go :
        (o : Option ConnEntry)
        → lookup id p.entries ≡ o
        → AllIn
            (elim o as (λ _. Pool) [
              | none ↦ p
              | some e ↦ if e.active == 0 then p else put_entry p id (drop_lease e)
            ]).entries
    go none h = all
    go (some e) h =
        if_cases (λ (q : Pool). AllIn q.entries) (e.active == 0) (λ _. all)
          (λ k.
            unfold put_entry in
            insert-AllIn id (drop_lease e) p.entries (drop_lease-Exclusive e k (all id e h)) all)
pool_step-AllIn p (pauses id) all =
    change-AllIn add_pause (λ e v. unfold add_pause in ground arith) p id all
pool_step-AllIn p (resumes id) all =
    change-AllIn drop_pause (λ e v. unfold drop_pause in ground arith) p id all
pool_step-AllIn p (peer_closes id) all =
    change-AllIn (λ e. record e { sender_closed = true }) (λ e v. ground arith) p id all
pool_step-AllIn p shuts_down all = unfold shutdown in kill_all-AllIn (all_ids p.conns) p.entries all

pool_run-AllIn : (p : Pool) (ops : List PoolOp) → AllIn p.entries → AllIn (pool_run p ops).entries
unfolding pool_run
pool_run-AllIn p [] all = all
pool_run-AllIn p (op ∷ ops) all = pool_run-AllIn (pool_step p op) ops (pool_step-AllIn p op all)

-- In any run of the pool an exclusive connection is leased to one call at a time, and its sender
-- lies in the slot only while no call has it.
pub pool_run-Exclusive :
    (ops : List PoolOp) (id : ℕ) (e : ConnEntry)
    → lookup id (pool_run new_pool ops).entries ≡ some e
    → Exclusive e
pool_run-Exclusive ops =
    pool_run-AllIn new_pool ops
      (λ id e h. absurd (unfold new_pool in unfold lookup in ground arith))
