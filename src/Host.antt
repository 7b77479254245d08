-- ===== src/Host.antt =====
-- The host crate (src): it fetches a transaction, traces its scripts and hands the traces to the
-- guest.
pub mod NcpTypes
pub mod Types
pub mod Pack
pub mod Text
pub mod Printed
pub mod Json
pub mod Rpc
pub mod Batch
pub mod Errors
pub mod Convert
pub mod Node
pub mod Crates
pub mod Verifier
pub mod Executor
pub mod VmTree
pub mod Cli
pub mod GuestOutput
