-- ===== src/Builder.antt =====
-- pkg/dynamicwatch/builder.go: the fluent builder of a watcher. `Library` has what controller-runtime
-- supplies, `Options` the builder and its methods, `Name` the check of a CRD's name, `Build` the
-- construction; `Names`, `Chain`, `Outcome` and `Assembled` have the theorems.
mod Library
mod Options
mod Name
mod Build
pub mod Names
pub mod Chain
pub mod Outcome
pub mod Assembled
pub use Library.*
unfoldable pub use Options.*
unfoldable pub use Name.*
unfoldable pub use Build.*
