-- ===== src/Log/Sync.antt =====
-- raft/core/log.go: `maybeAppend`, by which a follower's log comes to agree with the leader's.
use yyckv.Base.{
  ℕ, ◌+◌, ◌≤◌, ◌<◌, ◌≡◌, ◌≢◌, inl, inr, refl, none, some, List, length, leb, min, max, arith, ok,
  panic, log_panic, Returns, Returns-value, true, ==_refl, dec_lt, ◌>>=◌, ap,
}
use yyckv.Base.Word.{modulus, add64_exact}
use yyckv.Pb.{Entry}
use yyckv.Unstable.View.{Contiguous}
use yyckv.Log.{RaftLog, append_conflict, maybe_append, commit_to, find_conflict}
use yyckv.Log.View.{Stable, IsValid, has_term_iff, end_of, term_at, match_term_lem}
use yyckv.Log.Append.{run_term, commit_to_lem, commit_to-IsValid}
use yyckv.Log.Match.{Agrees, IsConflict, find_conflict_lem}
use yyckv.Log.Conflict.{Extends, append_conflict_lem}

-- What a successful `maybeAppend` of the entries `es` after `index` makes of the log `l`, at the commit
-- index of a leader.
pub record Synced (s : Stable) (l l' : RaftLog) (index commit : ℕ) (es : List Entry) : Type 0 where
  pub extended : Extends s l l' index es
  pub commit_eq : l'.committed ≡ max l.committed (min commit (index + length es))

module _ (s : Stable) (l : RaftLog) (v : IsValid s l) (index log_term commit : ℕ) (es : List Entry)
    (run : Contiguous (index + 1) es) (room : index + 1 + length es < modulus) where
  maybe_append_matched :
      term_at s l index ≡ some log_term
      → maybe_append l index log_term commit es ≡ (
          find_conflict l es >>= λ ci. append_conflict l index ci es >>= λ l'.
          commit_to l' (min commit (index + length es)) >>= λ l''.
          ok (some (l'', index + length es)))
  unfolding maybe_append
  maybe_append_matched here =
      rw (match_term_lem s l v index log_term (omega arith), here, ==_refl log_term)
        (rw (add64_exact index (length es) (omega arith)))

  conflict_panics :
      (c i : ℕ)
      → index < i
      → i < index + 1 + length es
      → i ≤ l.committed
      → term_at s l i ≢ run_term (index + 1) es i
      → IsConflict s l (index + 1) es c
      → append_conflict l index c es ≡ panic log_panic
  unfolding append_conflict
  conflict_panics c i low high committed differs (inl (zero_c, agrees)) =
      absurd (differs (agrees i (omega arith) (omega arith)))
  conflict_panics c i low high committed differs (inr (from, upto, agrees, _)) = elim (dec_lt i c) [
    | yes before ↦ absurd (differs (agrees i (omega arith) before))
    | no after ↦ ground arith
  ]

  -- A conflict lies after what agrees with the log.
  conflict_after :
      (c : ℕ)
      → Agrees s l (index + 1) es (min (l.committed + 1) (index + 1 + length es))
      → IsConflict s l (index + 1) es c
      → c ≢ 0
      → l.committed < c
  conflict_after c safe (inl (zero_c, agrees)) pos = absurd (pos zero_c)
  conflict_after c safe (inr (low, high, agrees, differs)) pos = elim (dec_lt l.committed c) [
    | yes above ↦ above
    | no below ↦ absurd (differs (safe c low (omega arith)))
  ]

  Extends-commit :
      (l' : RaftLog) (c : ℕ)
      → Extends s l l' index es
      → c ≤ index + length es
      → Extends s l (record l' { committed = max l'.committed c }) index es
  unfolding term_at
  Extends-commit l' c x low = record {
    valid = commit_to-IsValid s l' x.valid c (omega (arith, x.reaches));
    reaches = x.reaches;
    agrees = x.agrees;
    keeps = x.keeps;
    placed = x.placed;
    same_rest = ap (λ (r : RaftLog). record r { committed = max l'.committed c }) x.same_rest;
    rest = x.rest;
  }

  synced :
      (l' : RaftLog)
      → Extends s l l' index es × (l'.committed ≡ l.committed)
      → Returns
          (commit_to l' (min commit (index + length es)))
          λ l''. Synced s l l'' index commit es
  synced l' (x, same) =
      let near : leb (min commit (index + length es)) (end_of s l') ≡ true =
        ground (arith, x.reaches) in
      rw (commit_to_lem s l' x.valid (min commit (index + length es)), near)
        record { extended = Extends-commit l' _ x (omega arith); commit_eq = rw same }

  -- Let a valid log have `log_term` at `index`, and let entries with consecutive indices from the next
  -- one on, the last of which fits a word with its successor, have the terms of the log up to the commit
  -- index. Then `maybeAppend` returns the index of the last of them and a valid log, which differs in its
  -- unstable log and its commit index only. If the log has the terms of all of them, its entries stay;
  -- otherwise its unstable entries from the first index without that term on are the given ones, and below
  -- it stay. So the log has the terms of all the entries, the old terms up to `index`, and past the new
  -- entries all the old terms or nothing. The commit index is raised to the leader's or to the last entry
  -- given, whichever is lower.
  pub maybe_append_lem :
      term_at s l index ≡ some log_term
      → Agrees s l (index + 1) es (min (l.committed + 1) (index + 1 + length es))
      → Returns
          (maybe_append l index log_term commit es)
          λ r. (l' : RaftLog) × (r ≡ some (l', index + length es)) × Synced s l l' index commit es
  maybe_append_lem here safe =
      let (c, at, h) =
        Returns-value (find_conflict l es) _
          (find_conflict_lem s l v (index + 1) es (omega arith) run room) in
      let (l', done, x) = Returns-value (append_conflict l index c es) _ (
        append_conflict_lem s l v index es run room (log_term, here) c h
          (conflict_after c safe h)) in
      let (l'', raised, y) = Returns-value (commit_to l' _) _ (synced l' x) in
      rw (maybe_append_matched here, at, done, raised) (l'', refl, y)

  -- With another term at `index`, or none, it returns false and changes nothing.
  pub maybe_append_reject :
      term_at s l index ≢ some log_term → maybe_append l index log_term commit es ≡ ok none
  unfolding maybe_append
  maybe_append_reject differs =
      ground (arith, match_term_lem s l v index log_term, has_term_iff log_term (term_at s l index))

  -- Let a valid log have `log_term` at `index`, and let the entries have consecutive indices from the next
  -- one on, the last of which fits a word with its successor. If one of them, at most at the commit index,
  -- has another term than the log has there, `maybeAppend` panics.
  pub maybe_append_committed :
      term_at s l index ≡ some log_term
      → (i : ℕ) → index < i
      → i < index + 1 + length es
      → i ≤ l.committed
      → term_at s l i ≢ run_term (index + 1) es i
      → maybe_append l index log_term commit es ≡ panic log_panic
  maybe_append_committed here i low high committed differs =
      let (c, at, h) =
        Returns-value (find_conflict l es) _
          (find_conflict_lem s l v (index + 1) es (omega arith) run room) in
      rw (maybe_append_matched here, at, conflict_panics c i low high committed differs h)
