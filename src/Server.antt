-- ===== src/Server.antt =====
-- lib/src/lib.rs: the responders of the HTTP server and their streaming state machine.
-- The process-wide tables are one record, the slot of a thread another; every function takes the
-- thread that it runs on. A `oneshot` receiver is known by its responder, an `mpsc` channel by an id.
pub mod State
pub mod Respond
pub mod Stream
pub mod Handle
pub mod Laws
pub mod Start
pub mod Lost
pub mod Examples
