-- ===== src/Quorum.antt =====
-- raft/core/quorum: majority and joint configurations, and the result of a vote.
pub mod IdSet
pub mod Sort
pub mod Majority
pub mod Joint
pub mod Intersect
