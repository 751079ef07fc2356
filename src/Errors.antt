-- ===== src/Errors.antt =====
-- pkg/common/error: typed errors.
mod Keys
mod Messages
mod Failures
mod Text
pub mod Construct
pub mod Table
pub mod TableLaws
unfoldable pub use Keys.*
unfoldable pub use Messages.*
unfoldable pub use Failures.*
