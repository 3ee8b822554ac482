-- ===== src/Pb/Change.antt =====
-- raft/raftpb/confchange.go: configuration changes and their two versions.
use yyckv.Base.{ℕ, Bool, true, false, Option, none, some, List, [], ◌∷◌, length, ltb, if◌then◌else◌}

-- The enumeration is open: `other_type` is a value that no constant names.
pub data ConfChangeType : Type 0 where
  add_node remove_node update_node add_learner_node : ConfChangeType
  other_type : ℕ → ConfChangeType

pub data ConfChangeTransition : Type 0 where
  auto joint_implicit joint_explicit : ConfChangeTransition

pub record ConfChange : Type 0 where
  pub typ : ConfChangeType
  pub node_id : ℕ
  pub context : Option (List ℕ)
  pub id : ℕ

pub record ConfChangeSingle : Type 0 where
  pub typ : ConfChangeType
  pub node_id : ℕ

pub record ConfChangeV2 : Type 0 where
  pub transition : ConfChangeTransition
  pub changes : List ConfChangeSingle
  pub context : Option (List ℕ)

-- The type switch of `ConfChangeI`.
pub data ConfChangeI : Type 0 where
  v1 : ConfChange → ConfChangeI
  v2 : ConfChangeV2 → ConfChangeI

unfoldable pub as_v2 : ConfChangeI → ConfChangeV2
as_v2 (v1 c) = record {
  transition = auto;
  changes = (record { typ = c.typ; node_id = c.node_id }) ∷ [];
  context = c.context;
}
as_v2 (v2 c) = c

unfoldable pub as_v1 : ConfChangeI → Option ConfChange
as_v1 (v1 c) = some c
as_v1 (v2 c) = none

abbrev auto_leaves : ConfChangeTransition → Bool
auto_leaves auto = true
auto_leaves joint_implicit = true
auto_leaves joint_explicit = false

abbrev joins : ConfChangeTransition → ℕ → Option Bool
joins auto n = if ltb 1 n then some (auto_leaves auto) else none
joins t n = some (auto_leaves t)

-- The outer `Option` is the second result, `ok`.
unfoldable pub enter_joint : ConfChangeV2 → Option Bool
enter_joint c = joins c.transition (length c.changes)
