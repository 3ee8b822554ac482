-- ===== src/Log.antt =====
-- raft/core/log.go: the raft log, over a storage and the unstable entries. A method that changes the
-- receiver returns the new record. `applying` and `applied` are never advanced in this program.
use yyckv.Base.{
  ℕ, zero, suc, Bool, true, false, Option, none, some, List, [], ◌∷◌, length, ltb, leb, ◌==◌, min,
  ◌||◌, ◌&&◌, not, if◌then◌else◌, Fallible, ok, panic, log_panic, raised, sub_slice, ◌>>=◌,
}
use yyckv.Base.Word.{add64, sub64}
use yyckv.Pb.{Entry}
use yyckv.Storage.{Storage, StorageError, Outcome, found, failed, compacted, unavailable}
use yyckv.Unstable
use yyckv.Unstable.{Unstable}
use yyckv.Util.{ents_size, limit_size, extend}
pub mod View
pub mod Ranges
pub mod Conflict
pub mod Append
pub mod Match
pub mod Election
pub mod Sync

pub record RaftLog : Type 0 where
  pub storage : Storage
  pub unstable : Unstable
  pub committed : ℕ
  pub applying : ℕ
  pub applied : ℕ
  pub max_applying_ents_size : ℕ
  pub applying_ents_size : ℕ
  pub applying_ents_paused : Bool

-- `if err != nil { panic(err) }`.
abbrev pub must {ℓ} : {A : Type ℓ} → Outcome A → Fallible A
must (found a) = ok a
must (failed e) = panic raised

unfoldable pub new_log_with_size : Storage → ℕ → Fallible RaftLog
new_log_with_size s max_size = do
  first ← s.first_index >>= must
  last ← s.last_index >>= must
  ok (record {
    storage = s;
    unstable = record {
      snapshot = none;
      entries = [];
      offset = add64 last 1;
      snapshot_in_progress = false;
      offset_in_progress = add64 last 1;
    };
    committed = sub64 first 1;
    applying = sub64 first 1;
    applied = sub64 first 1;
    max_applying_ents_size = max_size;
    applying_ents_size = 0;
    applying_ents_paused = false;
  })

abbrev or_storage : Option ℕ → Fallible (Outcome ℕ) → Fallible ℕ
or_storage (some i) call = ok i
or_storage none call = call >>= must

unfoldable pub first_index : RaftLog → Fallible ℕ
first_index l = or_storage (Unstable.maybe_first_index l.unstable) l.storage.first_index

unfoldable pub last_index : RaftLog → Fallible ℕ
last_index l = or_storage (Unstable.maybe_last_index l.unstable) l.storage.last_index

abbrev checked_term : Outcome ℕ → Fallible (Outcome ℕ)
checked_term (found t) = ok (found t)
checked_term (failed compacted) = ok (failed compacted)
checked_term (failed unavailable) = ok (failed unavailable)
checked_term (failed e) = panic raised

stable_term : RaftLog → ℕ → Fallible (Outcome ℕ)
stable_term l i = do
  first ← first_index l
  if ltb (add64 i 1) first
      then ok (failed compacted)
      else (last_index l >>= λ last.
          if ltb last i then ok (failed unavailable) else (l.storage.term i >>= checked_term))

unfoldable pub term : RaftLog → ℕ → Fallible (Outcome ℕ)
unfolding stable_term
term l i =
    Unstable.maybe_term l.unstable i >>= elim [ some t ↦ ok (found t) | none ↦ stable_term l i ]

-- `zeroTermOnOutOfBounds` of the two results of a call.
unfoldable pub zero_term_on_out_of_bounds : Outcome ℕ → Fallible ℕ
zero_term_on_out_of_bounds (found t) = ok t
zero_term_on_out_of_bounds (failed compacted) = ok 0
zero_term_on_out_of_bounds (failed unavailable) = ok 0
zero_term_on_out_of_bounds (failed e) = panic log_panic

abbrev pub or_log_panic {ℓ} : {A : Type ℓ} → Outcome A → Fallible A
or_log_panic (found a) = ok a
or_log_panic (failed e) = panic log_panic

unfoldable pub last_term : RaftLog → Fallible ℕ
last_term l = do last ← last_index l; t ← term l last; or_log_panic t

abbrev is_term : ℕ → Outcome ℕ → Bool
is_term t (found t') = t' == t
is_term t (failed e) = false

unfoldable pub match_term : RaftLog → ℕ → ℕ → Fallible Bool
match_term l i t = do o ← term l i; ok (is_term t o)

-- The log line of a conflict reads the term, and panics where that panics.
unfoldable pub find_conflict : RaftLog → List Entry → Fallible ℕ
find_conflict l [] = ok 0
find_conflict l (e ∷ es) =
    let rest = find_conflict l es in
    match_term l e.index e.term >>= elim [
      | true ↦ rest
      | false ↦
          (last_index l >>= λ last.
          if leb e.index last
          then (term l e.index >>= λ o. zero_term_on_out_of_bounds o >>= λ _. ok e.index)
          else ok e.index)
    ]

-- The loop counts the index down, so it ends.
unfoldable pub find_conflict_by_term : RaftLog → ℕ → ℕ → Fallible (ℕ × ℕ)
find_conflict_by_term l zero t = ok (0, 0)
find_conflict_by_term l (suc i) t =
    let rest = find_conflict_by_term l i t in
    term l (suc i) >>= elim [
      | failed e ↦ ok (suc i, 0)
      | found our_term ↦ if leb our_term t then ok (suc i, our_term) else rest
    ]

unfoldable pub commit_to : RaftLog → ℕ → Fallible RaftLog
commit_to l to_commit =
    if ltb l.committed to_commit
    then (last_index l >>= λ last.
        if ltb last to_commit then panic log_panic else ok (record l { committed = to_commit }))
    else ok l

unfoldable pub append : RaftLog → List Entry → Fallible (RaftLog × ℕ)
append l [] = last_index l >>= λ last. ok (l, last)
append l (e ∷ es) =
    if ltb (sub64 e.index 1) l.committed
    then panic log_panic
    else (Unstable.truncate_and_append l.unstable (e ∷ es) >>= λ u.
        let l' = record l { unstable = u } in last_index l' >>= λ last. ok (l', last))

-- The switch of `maybeAppend` on the conflict.
pub append_conflict : RaftLog → ℕ → ℕ → List Entry → Fallible RaftLog
append_conflict l index ci ents =
    if ci == 0
    then ok l
    else if leb ci l.committed
    then panic log_panic
    else let at = sub64 ci (add64 index 1) in
      if ltb (length ents) at
      then panic log_panic
      else (sub_slice ents at (length ents) >>= λ es. append l es >>= λ r. ok r.0)

-- `none` is the result `(0, false)`.
unfoldable pub maybe_append : RaftLog → ℕ → ℕ → ℕ → List Entry → Fallible (Option (RaftLog × ℕ))
unfolding append_conflict
maybe_append l index log_term committed ents = do
  matches ← match_term l index log_term
  if matches
      then (do
        let last_new = add64 index (length ents)
        ci ← find_conflict l ents
        l' ← append_conflict l index ci ents
        l'' ← commit_to l' (min committed last_new)
        ok (some (l'', last_new)))
      else ok none

unfoldable pub is_up_to_date : RaftLog → ℕ → ℕ → Fallible Bool
is_up_to_date l last_i t = do
  ours ← last_term l
  last ← last_index l
  ok (ltb ours t || (t == ours && leb last last_i))

unfoldable pub maybe_commit : RaftLog → ℕ → ℕ → Fallible (RaftLog × Bool)
maybe_commit l max_index t =
    if ltb l.committed max_index && not (t == 0)
    then (do
      o ← term l max_index
      ours ← zero_term_on_out_of_bounds o
      if ours == t then (commit_to l max_index >>= λ l'. ok (l', true)) else ok (l, false))
    else ok (l, false)
