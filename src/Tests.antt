-- ===== src/Tests.antt =====
-- Concrete runs of the program's parts, and instances of the theorems.
mod Demo
mod Watching
mod Running
mod Building
mod Naming
mod Wiring
mod Reports
mod Reconciling
mod Mapping
mod Commanding
mod Copying
mod Sharing
mod Resting
mod Dispatching
mod Starting
mod Metering
