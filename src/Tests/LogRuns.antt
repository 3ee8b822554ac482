-- ===== src/Tests/LogRuns.antt =====
-- The theorems on the log and its storage at concrete inputs.
use yyckv.Base.{
  ℕ, ◌+◌, ◌-◌, ◌≡◌, inr, some, List, [], ◌∷◌, length, ltb, leb, ◌||◌, if◌then◌else◌, max, panic,
  log_panic, Returns, arith,
}
use yyckv.Pb.{Entry}
use yyckv.Storage.Memory.{append}
use yyckv.Storage.Memory.Laws as Memory
use yyckv.Storage.Memory.Append.{append-overwrites}
use yyckv.Unstable.{slice, truncate_and_append}
use yyckv.Unstable.View.{Contiguous, run_at}
use yyckv.Unstable.Append as Unstable
use yyckv.Unstable.Append.{truncate_and_append-refines, truncate_and_append_gap}
use yyckv.Unstable.Reads.{slice_out_of_bounds}
use yyckv.Log
use yyckv.Log.View.{term_at}
use yyckv.Log.Append.{append_lem, Overwrites}
use yyckv.Log.Match.{find_conflict_lem, find_conflict_by_term_lem, IsConflict, IsGuess}
use yyckv.Log.Sync.{maybe_append_lem, maybe_append_committed, Synced}
use yyckv.Log.{RaftLog}
use yyckv.Tests.Data.{
  entry, memory, memory-IsValid, fresh, fresh-IsValid, stable, log, log-IsValid, term_2,
}

-- Entry 3 in another term, and entry 4.
abbrev later : List Entry
later = entry 3 3 ∷ entry 4 3 ∷ []

later_run : Contiguous 3 later
later_run = omega arith

maybe_append_lem_example :
    Returns
      (Log.maybe_append log 2 1 4 later)
      λ r. (l' : RaftLog) × (r ≡ some (l', 4)) × Synced stable log l' 2 4 later
maybe_append_lem_example =
    maybe_append_lem stable log log-IsValid 2 1 4 later later_run (omega arith) term_2
      λ i low high. absurd (omega arith)

-- Entry 1 in another term, though it is committed.
abbrev wrong : List Entry
wrong = entry 1 7 ∷ []

maybe_append_committed_example : Log.maybe_append log 0 0 4 wrong ≡ panic log_panic
unfolding term_at
maybe_append_committed_example =
    maybe_append_committed stable log log-IsValid 0 0 4 wrong (omega arith) (omega arith)
      (ground arith) 1 (omega arith) (omega arith) (omega arith) (ground arith)

append_lem_example :
    Returns
      (Log.append log later)
      λ r. Overwrites stable log r.0 3 later × (r.1 ≡ 3 + length later - 1)
append_lem_example =
    append_lem stable log log-IsValid 3 later (omega arith) later_run (omega arith) (omega arith)
      (omega arith)

find_conflict_lem_example :
    Returns (Log.find_conflict log later) λ c. IsConflict stable log 3 later c
find_conflict_lem_example =
    find_conflict_lem stable log log-IsValid 3 later (omega arith) later_run (omega arith)

find_conflict_by_term_lem_example :
    Returns (Log.find_conflict_by_term log 3 1) λ r. IsGuess stable log log-IsValid 3 1 r
find_conflict_by_term_lem_example =
    find_conflict_by_term_lem stable log log-IsValid 3 1 (omega arith)

truncate_and_append-refines_example :
    Returns
      (truncate_and_append fresh later)
      λ u. Unstable.Overwrites fresh u (entry 3 3) (entry 4 3 ∷ [])
truncate_and_append-refines_example =
    truncate_and_append-refines fresh (entry 3 3) (entry 4 3 ∷ []) fresh-IsValid later_run
      (omega arith) (omega arith)

slice_out_of_bounds_example : slice fresh 3 5 ≡ panic log_panic
slice_out_of_bounds_example = slice_out_of_bounds fresh fresh-IsValid 3 5 (inr (inr (omega arith)))

append-overwrites_example : Returns (append memory (entry 2 5 ∷ [])) λ m'.
    Memory.IsValid m' 0
    × ((i : ℕ)
        → run_at 0 m'.ents i ≡ (
            if ltb i (max 2 (0 + 1)) || leb (2 + length (entry 2 5 ∷ [])) (0 + 1)
            then run_at 0 memory.ents i
            else run_at 2 (entry 2 5 ∷ []) i))
append-overwrites_example =
    append-overwrites memory 0 memory-IsValid 2 (entry 2 5 ∷ []) (omega arith) (omega arith)
      (omega arith) (omega arith)

-- An index past the end.
term-Reads_example : Memory.Reads memory 0 9
term-Reads_example = Memory.term-Reads memory 0 memory-IsValid 9 (omega arith)
