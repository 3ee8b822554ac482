-- ===== src/Log/Ranges.antt =====
-- raft/core/log.go: the readers of ranges of entries: `slice`, `entries`, `allEntries`, and the entries
-- that are to be stored or applied.
use yyckv.Base.{
  ℕ, Bool, Option, none, some, List, [], length, ltb, leb, ◌==◌, min, ◌&&◌, if◌then◌else◌, Fallible,
  ok, panic, log_panic, raised, ◌>>=◌,
}
use yyckv.Base.Word.{add64, sub64}
use yyckv.Pb.{Entry}
use yyckv.Storage.{StorageError, Outcome, found, failed, compacted, unavailable}
use yyckv.Unstable
use yyckv.Unstable.{Unstable}
use yyckv.Util.{ents_size, limit_size, extend}
use yyckv.Log.{RaftLog, first_index, last_index, must, or_log_panic}

unfoldable pub next_unstable_ents : RaftLog → Fallible (List Entry)
next_unstable_ents l = Unstable.next_entries l.unstable

unfoldable pub has_next_unstable_ents : RaftLog → Fallible Bool
has_next_unstable_ents l = next_unstable_ents l >>= λ es. ok (ltb 0 (length es))

unfoldable pub has_next_or_in_progress_unstable_ents : RaftLog → Bool
has_next_or_in_progress_unstable_ents l = ltb 0 (length l.unstable.entries)

unfoldable pub max_appliable_index : RaftLog → Bool → ℕ
max_appliable_index l allow_unstable =
    if allow_unstable then l.committed else min l.committed (sub64 l.unstable.offset 1)

-- `none` is no error.
unfoldable pub must_check_out_of_bounds : RaftLog → ℕ → ℕ → Fallible (Option StorageError)
must_check_out_of_bounds l lo hi =
    if ltb hi lo
    then panic log_panic
    else (first_index l >>= λ fi.
        if ltb lo fi
        then ok (some compacted)
        else (last_index l >>= λ last.
            if ltb (add64 fi (sub64 (add64 last 1) fi)) hi then panic log_panic else ok none))

-- The switch on the error of `storage.Entries`.
abbrev checked_entries : Outcome (List Entry) → Fallible (Outcome (List Entry))
checked_entries (found es) = ok (found es)
checked_entries (failed compacted) = ok (failed compacted)
checked_entries (failed unavailable) = panic log_panic
checked_entries (failed e) = panic raised

-- What `slice` adds to the stable entries `ents` of the range from `lo` to `cut`.
join_unstable : RaftLog → ℕ → ℕ → ℕ → ℕ → List Entry → Fallible (List Entry)
join_unstable l lo hi cut max_size ents =
    if leb hi l.unstable.offset
    then ok ents
    else if ltb (length ents) (sub64 cut lo)
    then ok ents
    else let size = ents_size ents in
      if leb max_size size
      then ok ents
      else (Unstable.slice l.unstable l.unstable.offset hi >>= λ tail.
          let kept = limit_size tail (sub64 max_size size) in
          if length kept == 1 && ltb max_size (add64 size (ents_size kept))
          then ok ents
          else ok (extend ents kept))

slice_from_storage : RaftLog → ℕ → ℕ → ℕ → Fallible (Outcome (List Entry))
unfolding join_unstable
slice_from_storage l lo hi max_size =
    let cut = min hi l.unstable.offset in
    l.storage.entries lo cut max_size >>= λ o. checked_entries o >>= elim [
      | failed e ↦ ok (failed e)
      | found ents ↦ (join_unstable l lo hi cut max_size ents >>= λ es. ok (found es))
    ]

unfoldable pub slice : RaftLog → ℕ → ℕ → ℕ → Fallible (Outcome (List Entry))
unfolding slice_from_storage
slice l lo hi max_size = must_check_out_of_bounds l lo hi >>= elim [
  | some e ↦ ok (failed e)
  | none ↦
      if lo == hi
      then ok (found [])
      else if leb l.unstable.offset lo
      then (Unstable.slice l.unstable lo hi >>= λ es. ok (found (limit_size es max_size)))
      else slice_from_storage l lo hi max_size
]

unfoldable pub entries : RaftLog → ℕ → ℕ → Fallible (Outcome (List Entry))
entries l i max_size =
    last_index l >>= λ last. if ltb last i then ok (found []) else slice l i (add64 last 1) max_size

abbrev pub no_limit : ℕ
no_limit = 18446744073709551615

unfoldable pub all_entries : RaftLog → Fallible (List Entry)
all_entries l = do first ← first_index l; o ← entries l first no_limit; must o

unfoldable pub next_committed_ents : RaftLog → Bool → Fallible (List Entry)
next_committed_ents l allow_unstable =
    let lo = add64 l.applying 1 in
    let hi = add64 (max_appliable_index l allow_unstable) 1 in
    let max_size = sub64 l.max_applying_ents_size l.applying_ents_size in
    if l.applying_ents_paused
    then ok []
    else if leb hi lo
    then ok []
    else if max_size == 0
    then panic log_panic
    else (slice l lo hi max_size >>= or_log_panic)
