-- ===== src/Watcher.antt =====
-- pkg/dynamicwatch/watcher.go: one optional CRD's watch. `State` has the data, `Lifecycle` the
-- operations that drive the watch, `Reads` the reads through it, `Status` its diagnostics.
mod Interface
mod State
mod Lifecycle
mod Reads
mod Status
pub mod Reading
pub mod Events
pub mod Recovery
pub mod Starting
pub use Interface.*
pub use State.*
unfoldable pub use Lifecycle.*
unfoldable pub use Reads.*
unfoldable pub use Status.*
