-- ===== src/Pool/Examples.antt =====
-- lib/src/client/pool.rs: two calls for one key, and a shutdown while one connects.
use hyper4k.Prelude.{
  ◌++◌, ◌≡◌, ◌≤◌, ◌<◌, refl, true, false, some, List, [], ◌∷◌, arith, contains, lookup, insert,
  remove,
}
use hyper4k.Pool.Paused.{times, shared_by, Shares, pauses-pass_cap}
use hyper4k.Pool.{
  pauses, Pool, new_pool, live, live_in, PoolOp, starts, locks, connects, drops_lease, shuts_down,
  pool_step, pool_run, acquire_start, acquire_locked, acquire_connected, register_entry, take_lease,
  put_entry, drop_lease, reuse, reuse_in, try_entry, eligible, entry_closed, ConnEntry, ids_of,
  is_live, new_entry,
}
use hyper4k.Pool.Growth.{Fits, pool_run-capped}
use hyper4k.Pool.Leases.{Exclusive, pool_run-Exclusive}
use hyper4k.Pool.Late.{connects-after_shutdown}

-- The second call leases the connection that the first has made.
abbrev burst : List PoolOp
burst = starts 1 ∷ locks 1 ∷ connects 1 true false ∷ starts 1 ∷ drops_lease 1 ∷ []

burst-Fits : Fits new_pool burst
unfolding pool_step new_pool acquire_start acquire_locked acquire_connected register_entry
    take_lease put_entry drop_lease reuse reuse_in try_entry eligible entry_closed live_in lookup
    insert remove
burst-Fits = (ground arith, (ground arith, (ground arith, (ground arith, (ground arith, tt)))))

pool_run-capped_example :
    let p = pool_run new_pool burst in
    (live p 1 ≤ p.max_conns_per_key)
    × (contains 1 p.dialling ≡ true → live p 1 < p.max_conns_per_key)
pool_run-capped_example = pool_run-capped burst 1 burst-Fits

-- A call holds the dial lock of key 1.
abbrev connecting : Pool
connecting = pool_run new_pool (starts 1 ∷ locks 1 ∷ [])

connects-after_shutdown_example :
    let q = pool_step (pool_step connecting shuts_down) (connects 1 true false) in
    (q.closed ≡ true)
    × (ids_of q 1 ≡ connecting.next_id ∷ [])
    × (is_live q.entries connecting.next_id ≡ true)
    × ((e : ConnEntry)
        → lookup connecting.next_id q.entries ≡ some e
        → (e.has_driver ≡ true) × (e.active ≡ 1))
unfolding pool_run pool_step new_pool acquire_start acquire_locked reuse reuse_in live_in lookup
    insert remove
connects-after_shutdown_example = connects-after_shutdown connecting 1 true refl

-- An exclusive connection that is leased.
abbrev single : ConnEntry
single = record (new_entry false false) { idle = false; active = 1 }

pool_run-Exclusive_example : Exclusive single
unfolding pool_run pool_step new_pool acquire_start acquire_locked acquire_connected register_entry
    take_lease put_entry reuse reuse_in live_in lookup insert remove
pool_run-Exclusive_example =
    pool_run-Exclusive (starts 1 ∷ locks 1 ∷ connects 1 false false ∷ []) 1 single refl

-- One live HTTP/2 connection without streams.
abbrev one_shared : Pool
one_shared = record new_pool { entries = (1, shared_by 0 0) ∷ []; conns = (1, 1 ∷ []) ∷ [] }

-- Six streams are paused where four are allowed.
pauses-pass_cap_example :
    Shares 4 1 1 6 6 (pool_run one_shared (times 6 (starts 1) ++ times 6 (pauses 1)))
unfolding new_pool lookup
pauses-pass_cap_example =
    pauses-pass_cap 4 1 1 one_shared 6 (omega arith) (omega arith)
      (record { open_pool = refl; capped = refl; others = []; first = refl; entry = refl })
