-- ===== src/Quorum/Sort.antt =====
-- raft/core/tracker/tracker.go: `insertionSort`, and the sorting of identifiers.
use yyckv.Base.{ℕ, List, [], ◌∷◌, ltb, if◌then◌else◌}
use yyckv.Quorum.IdSet.{IdSet, members}
use mathlib.Core.List.{reverse}
pub mod Order

-- The inner loop: `x` moves left past the greater elements of the sorted part, which is held in
-- reverse.
unfoldable pub sift : ℕ → List ℕ → List ℕ
sift x [] = x ∷ []
sift x (y ∷ ys) = let rest = y ∷ sift x ys in if ltb x y then rest else x ∷ y ∷ ys

-- The outer loop, over the part that is not sorted yet.
unfoldable pub sort_onto : List ℕ → List ℕ → List ℕ
sort_onto done [] = done
sort_onto done (x ∷ xs) = sort_onto (sift x done) xs

unfoldable pub insertion_sort : List ℕ → List ℕ
unfolding sift sort_onto
insertion_sort xs = reverse (sort_onto [] xs)

-- `MajorityConfig.Slice`. A set of identifiers has one sorted slice, so the sort is the one above.
unfoldable pub slice : IdSet → List ℕ
slice s = insertion_sort (members s)
