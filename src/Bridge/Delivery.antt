-- ===== src/Bridge/Delivery.antt =====
-- In which order events reach the consumer, and how a request ends.
mod Rounds
mod Steps
mod Order
mod Ending
pub use Rounds.*
pub use Steps.*
pub use Order.*
pub use Ending.*
