-- ===== src/Unstable/View.antt =====
-- raft/core/log_unstable.go: the unstable log as a partial function from indices to entries, and its
-- invariant.
use yyckv.Base.{
  ℕ, suc, ◌+◌, ◌-◌, ◌≤◌, ◌<◌, ◌≡◌, Option, none, List, [], ◌∷◌, ◌++◌, length, get_elem?, take, ltb,
  if◌then◌else◌, arith, zero,
}
use yyckv.Base.Word.{modulus}
use yyckv.Pb.{Entry}
use yyckv.Unstable.{Unstable}

-- The entries carry the indices from `n` on.
abbrev pub Contiguous : ℕ → List Entry → Type 0
Contiguous n [] = Unit {0}
Contiguous n (e ∷ es) = (e.index ≡ n) × Contiguous (suc n) es

-- The entry at index `i` of a run of entries that starts at `n`.
abbrev pub run_at : ℕ → List Entry → ℕ → Option Entry
run_at n es i = if ltb i n then none else get_elem? es (i - n)

abbrev pub entry_at : Unstable → ℕ → Option Entry
entry_at u i = run_at u.offset u.entries i

pub record IsValid (u : Unstable) : Type 0 where
  pub contiguous : Contiguous u.offset u.entries
  pub progress_low : u.offset ≤ u.offset_in_progress
  pub progress_high : u.offset_in_progress ≤ u.offset + length u.entries
  pub fits : u.offset + length u.entries < modulus

pub Contiguous-append :
    (n : ℕ) (xs ys : List Entry)
    → Contiguous n xs
    → Contiguous (n + length xs) ys
    → Contiguous n (xs ++ ys)
Contiguous-append n [] ys hx hy = ground arith
Contiguous-append n (x ∷ xs) ys hx hy = (hx.0, Contiguous-append (suc n) xs ys hx.1 (ground arith))

pub Contiguous-take : (n k : ℕ) (xs : List Entry) → Contiguous n xs → Contiguous n (take k xs)
Contiguous-take n zero xs h = tt
Contiguous-take n (suc k) [] h = tt
Contiguous-take n (suc k) (x ∷ xs) h = (h.0, Contiguous-take (suc n) k xs h.1)
