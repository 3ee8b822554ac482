-- ===== src/Unstable.antt =====
-- raft/core/log_unstable.go: the entries that are not yet in the storage. A method that changes the
-- receiver returns the new record. A Go slice is a list, so the sharing of arrays is not modelled.
use yyckv.Base.{
  ℕ, ◌-◌, Bool, Option, none, some, List, [], ◌∷◌, ◌++◌, length, ltb, leb, ◌==◌, min, ◌||◌,
  if◌then◌else◌, Fallible, ok, panic, log_panic, out_of_range, index, sub_slice, ◌>>=◌, ◌>>◌, drop,
}
use yyckv.Base.Word.{add64, sub64}
use yyckv.Pb.{Entry, Snapshot}
pub mod View
pub mod Append
pub mod Reads

pub record Unstable : Type 0 where
  pub snapshot : Option Snapshot
  pub entries : List Entry
  pub offset : ℕ
  pub snapshot_in_progress : Bool
  pub offset_in_progress : ℕ

-- A result `(x, ok)` is an `Option`.
unfoldable pub maybe_first_index : Unstable → Option ℕ
maybe_first_index u = elim u.snapshot [ none ↦ none | some s ↦ some (add64 s.metadata.index 1) ]

unfoldable pub maybe_last_index : Unstable → Option ℕ
maybe_last_index u =
    if length u.entries == 0
    then elim u.snapshot [ none ↦ none | some s ↦ some s.metadata.index ]
    else some (sub64 (add64 u.offset (length u.entries)) 1)

abbrev snapshot_term : Option Snapshot → ℕ → Option ℕ
snapshot_term none i = none
snapshot_term (some s) i = if s.metadata.index == i then some s.metadata.term else none

abbrev stored_term : Unstable → ℕ → Option ℕ → Fallible (Option ℕ)
stored_term u i none = ok none
stored_term u i (some last) =
    if ltb last i then ok none else (index u.entries (sub64 i u.offset) >>= λ e. ok (some e.term))

unfoldable pub maybe_term : Unstable → ℕ → Fallible (Option ℕ)
unfolding maybe_last_index
maybe_term u i =
    if ltb i u.offset then ok (snapshot_term u.snapshot i) else stored_term u i (maybe_last_index u)

unfoldable pub next_entries : Unstable → Fallible (List Entry)
next_entries u =
    let in_progress = sub64 u.offset_in_progress u.offset in
    if length u.entries == in_progress
    then ok []
    else sub_slice u.entries in_progress (length u.entries)

unfoldable pub must_check_out_of_bounds : Unstable → ℕ → ℕ → Fallible (Unit {0})
must_check_out_of_bounds u lo hi =
    if ltb hi lo
    then panic log_panic
    else if ltb lo u.offset || ltb (add64 u.offset (length u.entries)) hi
    then panic log_panic
    else ok tt

unfoldable pub slice : Unstable → ℕ → ℕ → Fallible (List Entry)
unfolding must_check_out_of_bounds
slice u lo hi =
    must_check_out_of_bounds u lo hi >> sub_slice u.entries (sub64 lo u.offset) (sub64 hi u.offset)

unfoldable pub truncate_and_append : Unstable → List Entry → Fallible Unstable
unfolding slice
truncate_and_append u [] = panic out_of_range
truncate_and_append u (e ∷ es) =
    let from_index = e.index in
    if from_index == add64 u.offset (length u.entries)
    then ok (record u { entries = u.entries ++ (e ∷ es) })
    else if leb from_index u.offset
    then ok (record u { entries = e ∷ es; offset = from_index; offset_in_progress = from_index })
    else (slice u u.offset from_index >>= λ keep. ok (record u {
      entries = keep ++ (e ∷ es);
      offset_in_progress = min u.offset_in_progress from_index;
    }))
