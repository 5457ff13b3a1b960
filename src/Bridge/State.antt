-- ===== src/Bridge/State.antt =====
-- lib/src/client/bridge.rs: the data of one request, and the methods of `RequestState`.
use hyper4k.Prelude.{
  ℕ, ℤ, ◌+◌, ◌-◌, ◌%◌, ◌^◌, Bool, true, false, Option, none, some, List, [], String, if◌then◌else◌,
}
use hyper4k.Abi.{Hyper4kErrorKind}

abbrev pub Bytes : Type 0
Bytes = List ℕ

pub data Event : Type 0 where
  headers : (status version : ℕ) → List (Bytes × Bytes) → Event
  chunk : Bytes → Event

pub record Terminal : Type 0 where
  pub kind : Hyper4kErrorKind
  pub protocol_code : ℕ
  pub message : String

-- `RUNNING`, `TERMINAL_DRAIN` and `TERMINAL_DISCARD`.
pub data Gate : Type 0 where
  running terminal_drain terminal_discard : Gate

-- A connection is known by its id. `pause_guard` is the connection on whose paused-stream count
-- this request holds one unit: making a `PauseGuard` adds it, dropping the guard gives it back.
pub record RequestState : Type 0 where
  pub id : ℕ
  pub state : Gate
  pub committed : Bool
  pub paused : Bool
  pub in_callback : Bool
  pub permit : Bool
  pub conn : Option ℕ
  pub pause_guard : Option ℕ

-- What the slot has called, newest first: the callbacks, and the `finished` closure.
pub data Called : Type 0 where
  on_event : Event → Called
  on_done : Option Terminal → Called
  on_finished : Called

pub record Slot : Type 0 where
  pub state : RequestState
  pub queue : List Event
  pub space : ℕ
  pub terminal : Option Terminal
  pub done_ready : Bool
  pub scheduled : Bool
  pub running : Bool
  pub finished_flag : Bool
  pub finished : Bool
  pub counter : ℕ  -- u32, of the `BridgeCounter`
  pub ready : ℕ  -- entries of this slot in the executor's queue
  pub log : List Called

-- A call that a callback makes on its own request.
pub data Call : Type 0 where
  resumes cancels : Call

pub record Reaction : Type 0 where
  pub calls : List Call
  pub action : ℤ

-- A callback may depend on all that was called before. `on_chunk` may be NULL.
pub record Callbacks : Type 0 where
  pub on_headers : List Called → ℕ → ℕ → List (Bytes × Bytes) → Reaction
  pub on_chunk : Option (List Called → Bytes → Reaction)

unfoldable pub new_state : ℕ → RequestState
new_state id = record {
  id = id;
  state = Gate.running;
  committed = false;
  paused = false;
  in_callback = false;
  permit = false;
  conn = none;
  pause_guard = none;
}

unfoldable pub bind_connection : RequestState → ℕ → RequestState
bind_connection r entry = record r { conn = some entry }

unfoldable pub mark_committed : RequestState → RequestState
mark_committed r = record r { committed = true }

abbrev pub is_running : Gate → Bool
is_running Gate.running = true
is_running _ = false

abbrev pub is_discard : Gate → Bool
is_discard Gate.terminal_discard = true
is_discard _ = false

unfoldable pub is_terminal : RequestState → Bool
is_terminal r = if is_running r.state then false else true

unfoldable pub discarding : RequestState → Bool
discarding r = is_discard r.state

-- The compare-exchange: the new state, and whether this caller won.
unfoldable pub claim : RequestState → Bool → RequestState × Bool
claim r discard =
    let target = if discard then Gate.terminal_discard else Gate.terminal_drain in
    if is_running r.state then (record r { state = target }, true) else (r, false)

-- The stores of `enter_pause` and `leave_pause`. Another call can get in between two of them.
unfoldable pub store_paused : RequestState → Bool → RequestState
store_paused r b = record r { paused = b }

unfoldable pub take_guard : RequestState → RequestState
take_guard r = record r { pause_guard = r.conn }

unfoldable pub drop_guard : RequestState → RequestState
drop_guard r = record r { pause_guard = none }

unfoldable pub enter_pause : RequestState → RequestState
unfolding store_paused take_guard
enter_pause r = take_guard (store_paused r true)

unfoldable pub leave_pause : RequestState → RequestState
unfolding store_paused drop_guard
leave_pause r = drop_guard (store_paused r false)

unfoldable pub clear_permit : RequestState → RequestState
clear_permit r = record r { permit = false }

-- `BridgeCounter`: a `u32` under a mutex.
unfoldable pub enter : ℕ → ℕ
enter n = (n + 1) % 2 ^ 32

unfoldable pub leave : ℕ → ℕ
leave n = (n + 2 ^ 32 - 1) % 2 ^ 32

-- `spawn`, after the submitter's `bridges.enter()`.
unfoldable pub spawn : ℕ → ℕ → ℕ → Slot
unfolding new_state
spawn id queue_capacity counter = record {
  state = new_state id;
  queue = [];
  space = queue_capacity;
  terminal = none;
  done_ready = false;
  scheduled = false;
  running = false;
  finished_flag = false;
  finished = true;
  counter = counter;
  ready = 0;
  log = [];
}
