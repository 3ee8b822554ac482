-- ===== src/Log/Append.antt =====
-- raft/core/log.go: `append` and `commitTo`.
use yyckv.Base.{
  ℕ, ◌+◌, ◌-◌, ◌≤◌, ◌<◌, ◌≡◌, subst, Option, none, some, List, [], ◌∷◌, length, get_elem?, ltb, leb,
  ◌>>=◌, if◌then◌else◌, arith, ok, panic, log_panic, Returns, Returns-value, max, refl, ◌∙◌,
  get_elem?_above, get_elem?_below,
}
use yyckv.Base.Word.{modulus, sub64_exact}
use yyckv.Pb.{Entry}
use yyckv.Unstable
use yyckv.Unstable.{Unstable, truncate_and_append}
use yyckv.Unstable.View.{Contiguous, run_at, entry_at}
use yyckv.Unstable.Append.{truncate_and_append-refines}
use yyckv.Log.{RaftLog, append, commit_to, last_index}
use yyckv.Log.View.{Stable, IsValid, end_of, term_at, last_index_lem, end_fits}

-- The term at an index of a run of entries that starts at `n`.
abbrev pub run_term : ℕ → List Entry → ℕ → Option ℕ
run_term n es i = elim (get_elem? es (i - n)) [ none ↦ none | some e ↦ some e.term ]

module _ (s : Stable) (l : RaftLog) (v : IsValid s l) where
  -- `commitTo` raises the commit index to the one asked for, never lowers it, and panics on an index
  -- past the end of the log.
  pub commit_to_lem :
      (to_commit : ℕ)
      → commit_to l to_commit ≡ (
          if leb to_commit (end_of s l)
          then ok (record l { committed = max l.committed to_commit })
          else panic log_panic)
  unfolding commit_to
  commit_to_lem to_commit = ground (arith, last_index_lem s l v, v.committed_high)

  pub commit_to-IsValid :
      (to_commit : ℕ)
      → to_commit ≤ end_of s l
      → IsValid s (record l { committed = max l.committed to_commit })
  commit_to-IsValid c h = record {
    holds = v.holds;
    no_snapshot = v.no_snapshot;
    unstable = v.unstable;
    low = v.low;
    joined = v.joined;
    flush = v.flush;
    committed_low = omega (arith, v.committed_low);
    committed_high = ground (arith, v.committed_high);
  }

-- The log `l'` is valid and is `l` but for the unstable entries: those of `l` below index `n`, and the
-- entries `es` from there on. Its terms, with the stored ones, are so as well.
pub record Overwrites (s : Stable) (l l' : RaftLog) (n : ℕ) (es : List Entry) : Type 0 where
  pub valid : IsValid s l'
  pub same_rest : l' ≡ record l { unstable = l'.unstable }
  pub end_eq : end_of s l' ≡ n + length es - 1
  pub entries :
      (i : ℕ) → entry_at l'.unstable i ≡ (if ltb i n then entry_at l.unstable i else run_at n es i)
  pub content : (i : ℕ) → term_at s l' i ≡ (if ltb i n then term_at s l i else run_term n es i)

module _ (s : Stable) (l : RaftLog) (v : IsValid s l) (e : Entry) (es : List Entry) (u : Unstable)
    (after : l.committed < e.index) (near : e.index ≤ end_of s l + 1)
    (h : Unstable.Append.Overwrites l.unstable u e es) where
  appended_end : end_of s (record l { unstable = u }) ≡ e.index + length (e ∷ es) - 1
  appended_end = ground (arith, h.ends)

  appended-IsValid : IsValid s (record l { unstable = u })
  appended-IsValid = record {
    holds = v.holds;
    no_snapshot = h.same_snapshot ∙ v.no_snapshot;
    unstable = h.valid;
    low = ground (arith, h.start, v.low, v.committed_low);
    joined = ground (arith, h.start, v.joined);
    flush = λ empty. ground (arith, h.ends, h.start);
    committed_low = v.committed_low;
    committed_high = ground (arith, h.ends);
  }

  term_at-appended :
      (i : ℕ)
      → term_at s (record l { unstable = u }) i
        ≡ (if ltb i e.index then term_at s l i else run_term e.index (e ∷ es) i)
  unfolding term_at
  term_at-appended i = ground (
    arith,
    h.content i,
    appended_end,
    v.committed_low,
    get_elem?_above (e ∷ es) (i - e.index),
    get_elem?_below (e ∷ es) (i - e.index),
  )

  appended-Overwrites : Overwrites s l (record l { unstable = u }) e.index (e ∷ es)
  appended-Overwrites = record {
    valid = appended-IsValid;
    same_rest = refl;
    entries = λ i. ground (arith, h.content i);
    end_eq = appended_end;
    content = term_at-appended;
  }

module _ (s : Stable) (l : RaftLog) (v : IsValid s l) where
  append_open :
      (e : Entry) (es : List Entry)
      → l.committed < e.index
      → e.index < modulus
      → append l (e ∷ es) ≡ (
          truncate_and_append l.unstable (e ∷ es) >>= λ u.
          last_index (record l { unstable = u }) >>= λ last. ok (record l { unstable = u }, last))
  unfolding append
  append_open e es after small = ground (arith, sub64_exact e.index 1)

  append-cons :
      (e : Entry) (es : List Entry)
      → Contiguous e.index (e ∷ es)
      → l.committed < e.index
      → e.index ≤ end_of s l + 1
      → e.index + length (e ∷ es) < modulus
      → Returns
          (append l (e ∷ es))
          λ r. Overwrites s l r.0 e.index (e ∷ es) × (r.1 ≡ e.index + length (e ∷ es) - 1)
  append-cons e es run after near room =
      let (u, done, h) = Returns-value (truncate_and_append l.unstable (e ∷ es)) _ (
        truncate_and_append-refines l.unstable e es v.unstable run
          (ground (arith, v.flush, v.joined)) room) in
      let o = appended-Overwrites s l v e es u after near h in
      rw (append_open e es after (omega (arith, room)), done, last_index_lem s _ o.valid)
        (o, o.end_eq)

  -- On a valid log, appending at least one entry, with consecutive indices that start after the commit
  -- index and at most one past the end, the last of which fits a word with its successor, returns the index
  -- of the last entry and a valid log, which differs in its unstable log only. From the first new
  -- index on that has the new entries, and below it the old ones; the terms at all indices, those of
  -- stored entries included, are overwritten in the same way.
  pub append_lem :
      (n : ℕ) (es : List Entry)
      → 0 < length es
      → Contiguous n es
      → l.committed < n
      → n ≤ end_of s l + 1
      → n + length es < modulus
      → Returns (append l es) λ r. Overwrites s l r.0 n es × (r.1 ≡ n + length es - 1)
  append_lem n [] some_new run after near room = absurd (omega arith)
  append_lem n (e ∷ es) some_new run after near room =
      subst
        (λ k.
          Returns (append l (e ∷ es))
            λ r. Overwrites s l r.0 k (e ∷ es) × (r.1 ≡ k + length (e ∷ es) - 1))
        run.0
        (append-cons e es (refl, rw run.0 run.1) (omega (arith, run.0)) (omega (arith, run.0))
          (omega (arith, run.0)))

  -- Entries that start at or below the commit index make it panic.
  pub append_committed :
      (e : Entry) (es : List Entry)
      → e.index ≤ l.committed
      → 0 < e.index
      → append l (e ∷ es) ≡ panic log_panic
  unfolding append
  append_committed e es below pos =
      ground (arith, sub64_exact e.index 1, v.committed_high, end_fits s l v)
