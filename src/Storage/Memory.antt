-- ===== src/Storage/Memory.antt =====
-- raft/core/storage.go: `MemoryStorage`. `ents` starts with the entry before the first stored one.
-- The mutex serialises the calls, and each is one step here.
use yyckv.Base.{
  ℕ, List, [], ◌∷◌, ◌++◌, none, length, ltb, leb, ◌==◌, ◌&&◌, if◌then◌else◌, Fallible, ok, panic,
  unimplemented, log_panic, index, sub_slice, ◌>>=◌,
}
use yyckv.Base.Word.{add64, sub64}
use yyckv.Pb.{Entry, entry_normal}
use yyckv.Storage.Defs.{Storage, Outcome, found, failed, compacted, unavailable}
pub mod Laws
pub mod Append

pub record MemoryStorage : Type 0 where
  pub ents : List Entry

abbrev pub zero_entry : Entry
zero_entry = record { term = 0; index = 0; typ = entry_normal; payload = none }

unfoldable pub new_memory_storage : MemoryStorage
new_memory_storage = record { ents = zero_entry ∷ [] }

pub entries : MemoryStorage → ℕ → ℕ → ℕ → Fallible (Outcome (List Entry))
entries m lo hi max_size = panic unimplemented

-- The first unsigned word that is negative as an `int`, where the index expression after the test panics.
abbrev pub int_limit : ℕ
int_limit = 9223372036854775808

unfoldable pub term : MemoryStorage → ℕ → Fallible (Outcome ℕ)
term m i = do
  e ← index m.ents 0
  let offset = e.index
  if ltb i offset
      then ok (failed compacted)
      else if ltb (sub64 i offset) int_limit && leb (length m.ents) (sub64 i offset)
      then ok (failed unavailable)
      else (index m.ents (sub64 i offset) >>= λ e'. ok (found e'.term))

unfoldable pub last_index : MemoryStorage → Fallible ℕ
last_index m = index m.ents 0 >>= λ e. ok (sub64 (add64 e.index (length m.ents)) 1)

unfoldable pub first_index : MemoryStorage → Fallible ℕ
first_index m = index m.ents 0 >>= λ e. ok (add64 e.index 1)

-- The interface value, of the locking methods `Entries`, `Term`, `LastIndex` and `FirstIndex`.
unfoldable pub as_storage : MemoryStorage → Storage
unfolding entries
as_storage m = record {
  entries = entries m;
  term = term m;
  last_index = last_index m >>= λ i. ok (found i);
  first_index = first_index m >>= λ i. ok (found i);
}

-- The tail of `Append`, once the compacted entries are cut off.
unfoldable pub append_at : MemoryStorage → List Entry → Fallible MemoryStorage
append_at m ents = do
  e ← index ents 0
  e₀ ← index m.ents 0
  let offset = sub64 e.index e₀.index
  if ltb offset (length m.ents)
      then (sub_slice m.ents 0 offset >>= λ keep. ok (record { ents = keep ++ ents }))
      else if length m.ents == offset
      then ok (record { ents = m.ents ++ ents })
      else panic log_panic

unfoldable pub append : MemoryStorage → List Entry → Fallible MemoryStorage
append m [] = ok m
append m (e ∷ es) = do
  first ← first_index m
  let last = sub64 (add64 e.index (length (e ∷ es))) 1
  if ltb last first
      then ok m
      else if ltb e.index first
      then (sub_slice (e ∷ es) (sub64 first e.index) (length (e ∷ es)) >>= append_at m)
      else append_at m (e ∷ es)
