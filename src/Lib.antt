-- ===== src/Lib.antt =====
-- hyper4k: an HTTP client and server core in Rust behind a C ABI, used from Kotlin/Native.
--
-- The program's parts. A client request is submitted by `hyper4k_client_send` (lib/src/client/handle.rs),
-- which reserves room in the client-wide `Limits` and spawns a task, `run_request`. The task makes
-- attempts on pooled connections under the policy of retry.rs and hands events to the request's
-- bridge (bridge.rs): a bounded queue, a gate that closes once, and callbacks made by the workers of
-- executor.rs in slices of eight events. `resume` and `cancel` act on the bridge from any thread,
-- also from inside a callback. The server (lib/src/lib.rs) calls one callback for a request; the
-- response comes back through a thread-local slot or a channel, at once or as a stream.
--
-- What models what:
--   Prelude: shared notation, numbers, lists, association lists for `DashMap`.
--   Abi: the codes of lib/src/abi.rs.
--   Retry: lib/src/client/retry.rs.
--   Bridge: lib/src/client/bridge.rs and a worker's turn of executor.rs on one request. State has the records and the
--     methods of `RequestState`; Slice has `settle_slot`, `resume`, `cancel` and the loop of `run_owned`;
--     Ops has `EventSink::send`, `worker_loop`'s turn and sequences of operations. Invariant, Delivery
--     and Progress hold what is proved, Examples the tests. Overlap has the slice of a worker in two
--     steps, which other threads can get between, and the single stores of a pause.
--   Options: the versioned structs of lib/src/client/mod.rs, as bytes.
--   Client/Setup, Client/Requests: `hyper4k_client_new`, and `send`, `close`, `resume` and `cancel` of
--     handle.rs on the table of requests.
--   Text, Timed: what the crate uses of Rust's text functions, and results that take time under
--     `tokio::time::timeout`.
--   Proxy: lib/src/client/proxy.rs: the URL of a proxy, dial and the CONNECT exchange.
--   Tls: the windows, the trust configuration and the failure classes of lib/src/client/tls.rs.
--   Connectors: `PlaintextConnector` of lib/src/client/plaintext.rs, `TlsClientConnector` of tls.rs, and
--     the key of a pool. Client/Setup builds them from the options.
--   Executor: lib/src/client/executor.rs, as steps of threads between the points where another can get in.
--     Executor/Queue is the queue that it stands for, Executor/Hands the view of the workers.
--   Pool: lib/src/client/pool.rs, with the phases of `acquire` as steps. Pool/Single has the two calls of
--     `shutdown` that can meet, Pool/Counts what a caller can ask for.
--   Client/Limits: `Limits` and `Reservation` of handle.rs, as whole calls and as single atomic updates.
--   Client/Attempts: `run_request`, `attempt_loop` and `deliver_response` of handle.rs.
--   Headers: `parse_headers`, `trim_ascii` and the header text of `handle`, of lib/src/lib.rs.
--   Client/Free: `hyper4k_client_free` of handle.rs with `BridgeCounter::wait_zero`, and runs of what happens
--     on a client.
--   Client/Wire: the request that an attempt sends, of handle.rs.
--   Server: responders, the slot, streams and `handle` around its callback, of lib/src/lib.rs. Server/Start
--     has the two starts, the TLS configuration, the accept loops and stop.
--
-- How code becomes a definition. Shared state is a record that is passed on; an operation on a request
-- is one step, and threads are sequences of steps in any order. A callback is a parameter that sees
-- every earlier callback and may call `resume` and `cancel` before it returns its action. A task's
-- environment is a script: what the pool and the peer answer to each attempt, and the steps that other
-- threads take while the task awaits. Atomic counters keep their width (`% 2 ^ 32`, `% 2 ^ 64`).
-- The loops recurse on the budget of a slice, on a list of bytes or lines, or on the script. Only the
-- decimal digits of a port have fuel, for five digits, which a `u16` does not exceed.
--
-- Operations on one request can overlap in the program: two workers may come to one slot, and each
-- operation is several atomic accesses. What is stated of histories of operations is stated of those
-- that do not overlap; Bridge/Overlap looks at those that do, where a slice ends, and at a pause.
-- Likewise `send` and `close` are each one step, but for what Client/Requests/Closing says of a `send`
-- that `close` gets into.
--
-- A connect meets a network that is a record of what it does: how long a socket takes, what each read
-- brings, what a handshake comes to. The end of a list of reads is silence.
--
-- Not modelled: sockets, the TLS protocol itself and certificates (parameters), the tokio runtime (what
-- it gives is in the script), what gets into an operation on a request beyond Bridge/Overlap, aborting
-- the network task, and the Kotlin wrappers. What hyper accepts as a method, a URL, a header or a status is a parameter.
pub mod Prelude
pub mod Abi
pub mod Retry
pub mod Options
pub mod Pool
pub mod Bridge
pub mod Client
pub mod Headers
pub mod Server
pub mod Text
pub mod Timed
pub mod Proxy
pub mod Tls
pub mod Connectors
pub mod Executor
