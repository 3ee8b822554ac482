-- ===== src/Log/Election.antt =====
-- raft/core/log.go: `lastTerm`, `isUpToDate` and `maybeCommit`.
use yyckv.Base.{
  ℕ, ◌+◌, ◌≤◌, ◌<◌, ◌≡◌, ◌↔◌, ◌⊎◌, true, false, some, ltb, ◌==◌, ◌&&◌, if◌then◌else◌, arith, ok,
  Returns, not,
}
use yyckv.Base.Word.{modulus}
use yyckv.Log.{RaftLog, is_up_to_date, last_term, maybe_commit, zero_term_on_out_of_bounds}
use yyckv.Log.View.{
  Stable, IsValid, has_term, has_term_iff, end_of, term_at, last_index_lem, term_lem, end_fits,
  known_in_range, last_is_known,
}
use yyckv.Log.Append.{commit_to_lem}

module _ (s : Stable) (l : RaftLog) (v : IsValid s l) where
  pub last_term_lem : (t : ℕ) → term_at s l (end_of s l) ≡ some t → last_term l ≡ ok t
  unfolding last_term
  last_term_lem t known =
      ground (arith, last_index_lem s l v, term_lem s l v (end_of s l) (end_fits s l v))

  -- The log has a last entry with a known term, and `isUpToDate` holds of another log exactly when
  -- the last entry of that has a greater term, or the same term and an index that is no less.
  pub is_up_to_date_lem :
      (last_i t : ℕ)
      → (ours : ℕ) × (term_at s l (end_of s l) ≡ some ours)
        × Returns
            (is_up_to_date l last_i t)
            λ b. (b ≡ true) ↔ ((ours < t) ⊎ (t ≡ ours) × (end_of s l ≤ last_i))
  is_up_to_date_lem last_i t =
      let (ours, known) = last_is_known s l v in
      (
        ours,
        known,
        unfold is_up_to_date in
            rw (last_term_lem ours known, last_index_lem s l v) (ground arith, ground arith),
      )

  -- `maybeCommit` raises the commit index to `max_index` and returns true when that is above the
  -- commit index and the entry there has the given term, which is not 0. Otherwise it changes
  -- nothing and returns false. It does not panic.
  pub maybe_commit_lem :
      (max_index t : ℕ)
      → max_index + 1 < modulus
      → maybe_commit l max_index t
        ≡ ok (
            if ltb l.committed max_index && not (t == 0) && has_term t (term_at s l max_index)
            then (record l { committed = max_index }, true)
            else (l, false))
  unfolding maybe_commit zero_term_on_out_of_bounds
  maybe_commit_lem max_index t small = ground (
    arith,
    term_lem s l v max_index small,
    commit_to_lem s l v max_index,
    known_in_range s l v max_index t,
    has_term_iff t (term_at s l max_index),
  )
