-- ===== src/GoRuntime.antt =====
-- What the modelled code uses of the Go language and its standard library: panics, deferred
-- functions, channels, wait groups and timers.
mod Control
mod Channels
mod Timers
mod Laws
pub use Control.*
pub use Channels.*
pub use Timers.*
pub use Laws.*
