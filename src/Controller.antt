-- ===== src/Controller.antt =====
-- internal/controller/widget_controller.go: the reconciler of Widgets. `Backend` has what it takes from
-- the libraries, `Reconcile` the reconcile, `Mapping` the maps from events to requests and the
-- indexes, `Setup` the two set-ups; the others have the theorems.
mod Backend
mod Reconcile
mod Reconciler
mod Mapping
pub mod Dispatch
pub mod Setup
pub mod Wired
pub mod Enrolled
pub mod Succeeds
pub mod Following
pub mod Results
pub mod Plugins
pub mod Themes
pub mod Outcome
pub mod Parents
pub use Backend.*
unfoldable pub use Reconcile.*
unfoldable pub use Reconciler.*
unfoldable pub use Mapping.*
