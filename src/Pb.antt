-- ===== src/Pb.antt =====
-- raft/raftpb: the messages and entries that the raft core exchanges (raft.pb.go, from raft.proto)
-- and the configuration changes (confchange.go). The generated marshalling is not modelled, but for
-- the size of an entry. `Message.Responses`, which no modelled code reads, is left out.
mod Types
mod Size
mod Change
pub mod ChangeText
pub mod Marshal
pub use Types.*
unfoldable pub use Size.*
unfoldable pub use Change.*
