-- ===== src/Bridge.antt =====
-- lib/src/client/bridge.rs: event delivery, the terminal gate and backpressure of one request.
-- A method of `RequestState`, `Slot`, `RequestHandle` or `EventSink` is a function on the `Slot`
-- record, which also holds what the method reaches through its `Arc`s: the number of times the slot
-- stands in the executor's ready queue, the bridge counter, and the callbacks made so far. What a
-- callback does is a parameter.
pub mod State
pub mod Slice
pub mod Ops
pub mod Invariant
pub mod Delivery
pub mod Progress
pub mod Overlap
pub mod Examples
