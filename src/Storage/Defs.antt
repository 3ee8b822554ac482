-- ===== src/Storage/Defs.antt =====
-- raft/core/storage.go: the errors and the interface `Storage`. `InitialState` and `Snapshot`, which
-- no modelled code calls, are left out.
use yyckv.Base.{ℕ, List, Fallible}
use yyckv.Pb.{Entry}

pub data StorageError : Type 0 where
  compacted snap_out_of_date unavailable snapshot_temporarily_unavailable other_error : StorageError

-- A Go result `(A, error)`.
pub data Outcome {ℓ} (A : Type ℓ) : Type ℓ where
  found : A → Outcome A
  failed : StorageError → Outcome A

pub record Storage : Type 0 where
  pub entries : ℕ → ℕ → ℕ → Fallible (Outcome (List Entry))
  pub term : ℕ → Fallible (Outcome ℕ)
  pub last_index : Fallible (Outcome ℕ)
  pub first_index : Fallible (Outcome ℕ)
