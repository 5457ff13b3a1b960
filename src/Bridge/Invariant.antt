-- ===== src/Bridge/Invariant.antt =====
-- What holds of a request between two operations, and that each operation keeps it.
mod Settling
mod Slicing
mod Stepping
mod Running
pub use Settling.*
pub use Slicing.*
pub use Running.*
pub use Stepping.*
