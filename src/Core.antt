-- ===== src/Core.antt =====
-- archive/rust/src/core: the vocabulary that the engine and the adapters share.
mod Intents
mod Observations
mod Snapshots
unfoldable pub use Intents.*
unfoldable pub use Observations.*
unfoldable pub use Snapshots.*
