-- ===== src/Bridge/Progress.antt =====
-- Whether a request that is settled comes to its end.
mod Lost
mod Flowing
mod Finishing
pub use Lost.*
pub use Flowing.*
pub use Finishing.*
