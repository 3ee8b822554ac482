-- ===== src/Storage.antt =====
-- raft/core/storage.go: what the log reads from its storage, as an interface with its contract, and
-- `MemoryStorage`, the one implementation. A value of `Storage` answers the calls made between two
-- writes of the application. The call counters, which nothing reads, are left out.
pub mod Memory
mod Defs
mod Contract
pub use Defs.*
pub use Contract.*
