-- ===== src/Storage/Contract.antt =====
-- raft/core/storage.go: the contract of `Storage` that the log relies on.
use yyckv.Base.{ℕ, ◌+◌, ◌≤◌, ◌<◌, ◌≡◌, ok}
use yyckv.Base.Word.{modulus}
use yyckv.Storage.Defs.{Storage, found}

-- The storage holds the entries `first` to `last`, and knows the terms of these and of the entry
-- before them.
pub record Holds (s : Storage) (first last : ℕ) (terms : ℕ → ℕ) : Type 0 where
  pub first_eq : s.first_index ≡ ok (found first)
  pub last_eq : s.last_index ≡ ok (found last)
  pub first_pos : 0 < first
  pub ordered : first ≤ last + 1
  pub fits : last + 1 < modulus
  pub term_eq : (i : ℕ) → first ≤ i + 1 → i ≤ last → s.term i ≡ ok (found (terms i))
