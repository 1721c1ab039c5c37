-- ===== src/World.antt =====
-- The tables, the logs and the monad that the services share.
mod Rows
mod Texts
pub mod Request
mod Monad
pub use Rows.*
pub use Texts.*
pub use Request.*
pub use Monad.*
