-- ===== src/Command.antt =====
-- cmd/main.go: the manager's command, from its arguments to its exit status.
pub mod Flags
pub mod Servers
pub mod Program
pub mod Printed
pub mod Protocols
pub mod Stages
pub mod Endings
pub mod Outcome
pub mod Serves
