-- ===== src/Client.antt =====
-- lib/src/client/handle.rs: the limits of a client, its calls, and the task that runs one request.
pub mod Limits
pub mod Attempts
pub mod Wire
pub mod Setup
pub mod Requests
pub mod Free
pub mod Examples
