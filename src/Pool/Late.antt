-- ===== src/Pool/Late.antt =====
-- lib/src/client/pool.rs: a connect that ends after the shutdown.
use hyper4k.Prelude.{
  ℕ, ◌≡◌, refl, Bool, true, false, some, [], ◌∷◌, ◌++◌, arith, lookup, insert, contains,
  lookup-insert_same, ◌∙◌,
}
use hyper4k.Pool.{
  ConnEntry, Pool, ids_of, is_live, entry_closed, put_entry, take_lease, register_entry,
  acquire_connected, shutdown, pool_step, shuts_down, connects,
}

-- What `acquire` finds of its new connection.
record Arrives (p : Pool) (q : Pool) (key id : ℕ) : Type 0 where
  pub kept_closed : q.closed ≡ p.closed
  pub filed : ids_of q key ≡ ids_of p key ++ id ∷ []
  pub alive : is_live q.entries id ≡ true
  pub driven :
      (e : ConnEntry) → lookup id q.entries ≡ some e → (e.has_driver ≡ true) × (e.active ≡ 1)

leased-Arrives :
    (p : Pool) (key : ℕ) (e f : ConnEntry)
    → entry_closed f ≡ false
    → f.has_driver ≡ true
    → f.active ≡ 1
    → Arrives p (put_entry (register_entry p key e) p.next_id f) key p.next_id
unfolding put_entry register_entry
leased-Arrives p key e f open_now driver one = record {
  kept_closed = refl;
  filed = let l = lookup-insert_same key (ids_of p key ++ p.next_id ∷ []) p.conns in ground arith;
  alive = let l = lookup-insert_same p.next_id f (insert p.next_id e p.entries) in ground arith;
  driven = λ g h.
      let l = lookup-insert_same p.next_id f (insert p.next_id e p.entries) in
      (ground arith, ground arith);
}

acquire_connected-Arrives :
    (p : Pool) (key : ℕ) (multiplexed : Bool)
    → Arrives p (acquire_connected p key multiplexed false).0 key p.next_id
unfolding acquire_connected take_lease
acquire_connected-Arrives p key true =
    leased-Arrives p key _ _ (unfold entry_closed in refl) refl refl
acquire_connected-Arrives p key false =
    leased-Arrives p key _ _ (unfold entry_closed in refl) refl refl

-- A call that was connecting when the pool was shut down is given a lease all the same, and the closed
-- pool then holds a live connection whose driver no one has taken or aborted.
pub connects-after_shutdown :
    (p : Pool) (key : ℕ) (multiplexed : Bool)
    → contains key p.dialling ≡ true
    → let q = pool_step (pool_step p shuts_down) (connects key multiplexed false) in
      (q.closed ≡ true)
      × (ids_of q key ≡ p.next_id ∷ [])
      × (is_live q.entries p.next_id ≡ true)
      × ((e : ConnEntry)
          → lookup p.next_id q.entries ≡ some e
          → (e.has_driver ≡ true) × (e.active ≡ 1))
unfolding pool_step shutdown
connects-after_shutdown p key multiplexed dials =
    let a = acquire_connected-Arrives (shutdown p) key multiplexed in
    rw dials (a.kept_closed, a.filed ∙ (unfold lookup in refl), a.alive, a.driven)
