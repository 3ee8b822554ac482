-- ===== src/Quorum/IdSet.antt =====
-- A Go `map[uint64]struct{}`: `none` is the nil map, and a list has each identifier once. A loop over
-- a map visits it in any order: what such a loop computes here does not depend on the order.
use yyckv.Base.{
  ℕ, Bool, Option, none, some, List, [], ◌∷◌, contains, ◌==◌, if◌then◌else◌, Fallible, ok, panic,
  nil_map,
}

abbrev pub IdSet : Type 0
IdSet = Option (List ℕ)

abbrev pub members : IdSet → List ℕ
members none = []
members (some ids) = ids

abbrev pub has : IdSet → ℕ → Bool
has s id = contains (members s) id

abbrev pub add_id : List ℕ → ℕ → List ℕ
add_id ids id = if contains ids id then ids else id ∷ ids

abbrev pub drop_id : List ℕ → ℕ → List ℕ
drop_id [] id = []
drop_id (x ∷ ids) id = let rest = drop_id ids id in if x == id then rest else x ∷ rest

-- `m[id] = struct{}{}`.
unfoldable pub add : IdSet → ℕ → Fallible IdSet
add none id = panic nil_map
add (some ids) id = ok (some (add_id ids id))

-- `delete(m, id)`.
unfoldable pub delete : IdSet → ℕ → IdSet
delete none id = none
delete (some ids) id = some (drop_id ids id)
