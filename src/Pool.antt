-- ===== src/Pool.antt =====
-- lib/src/client/pool.rs: the connections of one client. A `PoolKey` is known by a number, and an
-- entry by its id: `entries` are the `ConnEntry`s that anything still refers to, `conns` has the ids
-- of those in the map. Whether hyper reports a sender as closed is part of the entry.
pub mod Cap
pub mod Counts
pub mod Growth
pub mod Late
pub mod Leases
pub mod Paused
pub mod Single
pub mod Examples
use hyper4k.Prelude.{
  ℕ, ◌+◌, ◌-◌, ◌%◌, ◌^◌, Bool, true, false, not, ◌&&◌, ◌||◌, Option, none, some, List, [], ◌∷◌,
  ◌++◌, if◌then◌else◌, ◌==◌, ltb, leb, lookup, insert, remove, contains,
}
use hyper4k.Abi.{Hyper4kErrorKind, err_cancelled, err_connect}

-- `multiplexed` tells `Slot::H2` from `Slot::H1`; `idle` is an exclusive sender that lies in its slot.
pub record ConnEntry : Type 0 where
  pub multiplexed : Bool
  pub idle : Bool
  pub active : ℕ  -- u32
  pub paused : ℕ  -- u32
  pub dead : Bool
  pub sender_closed : Bool
  pub has_driver : Bool

-- `dialling` has the keys whose dial lock is held by a call that is connecting.
pub record Pool : Type 0 where
  pub entries : List (ℕ × ConnEntry)
  pub conns : List (ℕ × List ℕ)
  pub dialling : List (ℕ × Unit {0})
  pub next_id : ℕ  -- u64
  pub max_conns_per_key : ℕ
  pub paused_cap : ℕ
  pub closed : Bool

abbrev pub default_max_conns_per_key : ℕ
default_max_conns_per_key = 8

abbrev pub default_paused_cap : ℕ
default_paused_cap = 4

unfoldable pub new_pool : Pool
new_pool = record {
  entries = [];
  conns = [];
  dialling = [];
  next_id = 1;
  max_conns_per_key = default_max_conns_per_key;
  paused_cap = default_paused_cap;
  closed = false;
}

-- `ConnEntry::closed`: an exclusive sender that is leased counts as open.
unfoldable pub entry_closed : ConnEntry → Bool
entry_closed e = e.dead || ((e.multiplexed || e.idle) && e.sender_closed)

unfoldable pub eligible : Pool → ConnEntry → Bool
eligible p e = not (entry_closed e) && (ltb e.paused p.paused_cap && (e.multiplexed || e.idle))

unfoldable pub put_entry : Pool → ℕ → ConnEntry → Pool
put_entry p id e = record p { entries = insert id e p.entries }

-- The pool with one lease more of this entry.
unfoldable pub take_lease : Pool → ℕ → ConnEntry → Option Pool
take_lease p id e =
    if e.multiplexed
    then some (put_entry p id (record e { active = (e.active + 1) % 2 ^ 32 }))
    else if e.idle
    then some (put_entry p id (record e { idle = false; active = (e.active + 1) % 2 ^ 32 }))
    else none

unfoldable pub try_entry : Pool → ℕ → Option Pool
try_entry p id = elim (lookup id p.entries) [
  | none ↦ none
  | some e ↦ if eligible p e then take_lease p id e else none
]

unfoldable pub reuse_in : Pool → List ℕ → Option Pool
reuse_in p [] = none
reuse_in p (id ∷ ids) = elim (try_entry p id) [ some q ↦ some q | none ↦ reuse_in p ids ]

abbrev pub ids_of : Pool → ℕ → List ℕ
ids_of p key = elim (lookup key p.conns) [ none ↦ [] | some ids ↦ ids ]

unfoldable pub reuse : Pool → ℕ → Option Pool
reuse p key = reuse_in p (ids_of p key)

abbrev pub is_live : List (ℕ × ConnEntry) → ℕ → Bool
is_live entries id = elim (lookup id entries) [ none ↦ false | some e ↦ not (entry_closed e) ]

unfoldable pub live_in : List (ℕ × ConnEntry) → List ℕ → ℕ
live_in entries [] = 0
live_in entries (id ∷ ids) = (if is_live entries id then 1 else 0) + live_in entries ids

-- The entries of a key that are not closed.
abbrev pub live : Pool → ℕ → ℕ
live p key = live_in p.entries (ids_of p key)

-- `acquire` comes to a lease, an error, or goes on: to the dial lock, and then to a connect.
pub data Acquired : Type 0 where
  leased : Acquired
  fails : Hyper4kErrorKind → Acquired
  goes_on : Acquired

unfoldable pub acquire_start : Pool → ℕ → Pool × Acquired
acquire_start p key =
    if p.closed
    then (p, fails err_cancelled)
    else elim (reuse p key) [ some q ↦ (q, leased) | none ↦ (p, goes_on) ]

-- The dial lock has been taken.
unfoldable pub acquire_locked : Pool → ℕ → Pool × Acquired
acquire_locked p key = elim (reuse p key) [
  | some q ↦ (q, leased)
  | none ↦
      if leb p.max_conns_per_key (live p key)
      then (p, fails err_connect)
      else (record p { dialling = insert key tt p.dialling }, goes_on)
]

abbrev pub new_entry : Bool → Bool → ConnEntry
new_entry multiplexed sender_closed = record {
  multiplexed = multiplexed;
  idle = not multiplexed;
  active = 0;
  paused = 0;
  dead = false;
  sender_closed = sender_closed;
  has_driver = true;
}

-- The connector has answered; the lock is given back in any case.
unfoldable pub acquire_failed : Pool → ℕ → Hyper4kErrorKind → Pool × Acquired
acquire_failed p key kind = (record p { dialling = remove key p.dialling }, fails kind)

unfoldable pub register_entry : Pool → ℕ → ConnEntry → Pool
register_entry p key e = record p {
  entries = insert p.next_id e p.entries;
  conns = insert key (ids_of p key ++ p.next_id ∷ []) p.conns;
  dialling = remove key p.dialling;
  next_id = (p.next_id + 1) % 2 ^ 64;
}

unfoldable pub acquire_connected : Pool → ℕ → Bool → Bool → Pool × Acquired
acquire_connected p key multiplexed sender_closed =
    let e = new_entry multiplexed sender_closed in
    let q = register_entry p key e in
    elim (take_lease q p.next_id e) [ some r ↦ (r, leased) | none ↦ (q, fails err_connect) ]

-- `Lease` is dropped.
unfoldable pub drop_lease : ConnEntry → ConnEntry
drop_lease e =
    let f = record e { active = (e.active + 2 ^ 32 - 1) % 2 ^ 32 } in
    if e.sender_closed
    then record f { dead = true }
    else if e.multiplexed
    then f
    else record f { idle = true }

unfoldable pub add_pause : ConnEntry → ConnEntry
add_pause e = record e { paused = (e.paused + 1) % 2 ^ 32 }

unfoldable pub drop_pause : ConnEntry → ConnEntry
drop_pause e = record e { paused = (e.paused + 2 ^ 32 - 1) % 2 ^ 32 }

abbrev pub kill : ConnEntry → ConnEntry
kill e = record e { dead = true; has_driver = false }

unfoldable pub kill_all : List ℕ → List (ℕ × ConnEntry) → List (ℕ × ConnEntry)
kill_all [] entries = entries
kill_all (id ∷ ids) entries = elim (lookup id entries) [
  | none ↦ kill_all ids entries
  | some e ↦ kill_all ids (insert id (kill e) entries)
]

abbrev pub all_ids : List (ℕ × List ℕ) → List ℕ
all_ids [] = []
all_ids ((key, ids) ∷ m) = ids ++ all_ids m

-- The call that wins `shutting_down`: every driver is taken and aborted, and the map is cleared.
unfoldable pub shutdown : Pool → Pool
shutdown p = record p { closed = true; entries = kill_all (all_ids p.conns) p.entries; conns = [] }

pub data PoolOp : Type 0 where
  starts locks : ℕ → PoolOp
  connects : ℕ → Bool → Bool → PoolOp
  connect_fails : ℕ → Hyper4kErrorKind → PoolOp
  drops_lease pauses resumes peer_closes : ℕ → PoolOp
  shuts_down : PoolOp

abbrev pub change : (ConnEntry → ConnEntry) → Pool → ℕ → Pool
change f p id = elim (lookup id p.entries) [ none ↦ p | some e ↦ put_entry p id (f e) ]

-- The lock of a key is free unless a call is connecting, and only that call connects. A lease that is
-- dropped is one that was taken.
unfoldable pub pool_step : Pool → PoolOp → Pool
pool_step p (starts key) = (acquire_start p key).0
pool_step p (locks key) = if contains key p.dialling then p else (acquire_locked p key).0
pool_step p (connects key multiplexed sender_closed) =
    if contains key p.dialling then (acquire_connected p key multiplexed sender_closed).0 else p
pool_step p (connect_fails key kind) =
    if contains key p.dialling then (acquire_failed p key kind).0 else p
pool_step p (drops_lease id) = elim (lookup id p.entries) [
  | none ↦ p
  | some e ↦ if e.active == 0 then p else put_entry p id (drop_lease e)
]
pool_step p (pauses id) = change add_pause p id
pool_step p (resumes id) = change drop_pause p id
pool_step p (peer_closes id) = change (λ e. record e { sender_closed = true }) p id
pool_step p shuts_down = shutdown p

unfoldable pub pool_run : Pool → List PoolOp → Pool
pool_run p [] = p
pool_run p (op ∷ ops) = pool_run (pool_step p op) ops
