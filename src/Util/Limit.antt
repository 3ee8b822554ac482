-- ===== src/Util/Limit.antt =====
-- raft/core/util.go: `limitSize` keeps the longest prefix within a limit, and at least one entry.
use yyckv.Base.{ℕ, ◌≤◌, ◌<◌, ◌≡◌, inl, inr, List, [], ◌∷◌, ltb, arith, refl, Bool-cases}
use yyckv.Base.Word.{add64}
use yyckv.Pb.{Entry, entry_size}
use yyckv.Util.{limit_size, limit_rest}

-- `kept` is the longest prefix of `es` whose size, on top of `size`, stays within the limit at every entry.
abbrev pub IsLongest : ℕ → ℕ → List Entry → List Entry → Type 0
IsLongest size max_size [] [] = Unit {0}
IsLongest size max_size [] (e ∷ es) = max_size < add64 size (entry_size e)
IsLongest size max_size (k ∷ ks) [] = ⊥
IsLongest size max_size (k ∷ ks) (e ∷ es) =
    (k ≡ e)
    × (add64 size (entry_size e) ≤ max_size)
    × IsLongest (add64 size (entry_size e)) max_size ks es

limit_rest_lem :
    (size : ℕ) (es : List Entry) (max_size : ℕ)
    → IsLongest size max_size (limit_rest size es max_size) es
unfolding limit_rest
limit_rest_lem size [] max_size = tt
limit_rest_lem size (e ∷ es) max_size =
    let rest = limit_rest_lem (add64 size (entry_size e)) es max_size in
    elim (Bool-cases (ltb max_size (add64 size (entry_size e)))) [
      | inl over ↦ rw over (ground arith)
      | inr fits ↦ rw fits (refl, ground arith, rest)
    ]

-- `limitSize` of no entries is empty. Otherwise it keeps the first entry, whatever its size, and then
-- the longest run of entries that stays within the limit with it.
pub limit_size_lem :
    (e : Entry) (es : List Entry) (max_size : ℕ)
    → (limit_size [] max_size ≡ [])
      × (kept : List Entry) × (limit_size (e ∷ es) max_size ≡ e ∷ kept)
      × IsLongest (entry_size e) max_size kept es
unfolding limit_size
limit_size_lem e es max_size =
    (refl, limit_rest (entry_size e) es max_size, refl, limit_rest_lem (entry_size e) es max_size)
