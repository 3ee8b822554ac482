-- ===== src/Quorum/Sort/Order.antt =====
-- raft/core/tracker/tracker.go: `insertionSort` sorts.
use mathlib.Core.Logic.Or
use mathlib.Core.List.{
  Mem, Pairwise, Pairwise-cons, Pairwise-reverse, mem-cons, not-mem-nil, Perm, perm_middle,
  reverse_perm, append-nil,
}
use mathlib.Core.List.Perm
use native.Mathlib.Bridge.{le_prop}
use yyckv.Base.{ℕ, ◌≤◌, List, [], ◌∷◌, ◌++◌, subst, All, ltb, arith, Bool-cases, inl, inr}
use yyckv.Quorum.Sort.{sift, sort_onto, insertion_sort}

-- Each element is at least every one behind it.
abbrev Falls : List ℕ → Type 0
Falls [] = Unit {0}
Falls (x ∷ xs) = All (λ y. y ≤ x) xs × Falls xs

All-sift : (n x : ℕ) (ys : List ℕ) → x ≤ n → All (λ y. y ≤ n) ys → All (λ y. y ≤ n) (sift x ys)
unfolding sift
All-sift n x [] h all = (h, tt)
All-sift n x (y ∷ ys) h all = ground (arith, All-sift n x ys h all.1)

All-mono : (m n : ℕ) (ys : List ℕ) → m ≤ n → All (λ y. y ≤ m) ys → All (λ y. y ≤ n) ys
All-mono m n [] h all = tt
All-mono m n (y ∷ ys) h all = (omega (arith, all.0), All-mono m n ys h all.1)

sift-Falls : (x : ℕ) (ys : List ℕ) → Falls ys → Falls (sift x ys)
unfolding sift
sift-Falls x [] h = (tt, tt)
sift-Falls x (y ∷ ys) h = ground (arith, sift-Falls x ys h.1, All-sift y x ys, All-mono y x ys, h.0)

sift-perm : (x : ℕ) (ys : List ℕ) → Perm (sift x ys) (x ∷ ys)
unfolding sift
sift-perm x [] = Perm.refl (x ∷ [])
sift-perm x (y ∷ ys) = elim (Bool-cases (ltb x y)) [
  | inl less ↦ rw less (Perm.trans (Perm.cons y (sift-perm x ys)) (Perm.swap x y ys))
  | inr more ↦ rw more (Perm.refl (x ∷ y ∷ ys))
]

sort_onto-Falls : (done xs : List ℕ) → Falls done → Falls (sort_onto done xs)
unfolding sort_onto
sort_onto-Falls done [] h = h
sort_onto-Falls done (x ∷ xs) h = sort_onto-Falls (sift x done) xs (sift-Falls x done h)

sort_onto-perm : (done xs : List ℕ) → Perm (sort_onto done xs) (xs ++ done)
unfolding sort_onto
sort_onto-perm done [] = Perm.refl done
sort_onto-perm done (x ∷ xs) =
    Perm.trans (sort_onto-perm (sift x done) xs)
      (Perm.trans (Perm.append_left xs (sift-perm x done)) (perm_middle xs done))

All-mem : (n a : ℕ) (ys : List ℕ) → All (λ y. y ≤ n) ys → Mem a ys → a ≤ n
All-mem n a [] all m = absurd (not-mem-nil m)
All-mem n a (y ∷ ys) all m = Or.elim le_prop (mem-cons.0 m) (λ e. rw e all.0) (All-mem n a ys all.1)

Falls-Pairwise : (xs : List ℕ) → Falls xs → Pairwise (λ a b. b ≤ a) xs
Falls-Pairwise [] h = Pairwise.nil
Falls-Pairwise (x ∷ xs) h = Pairwise-cons.1 ((λ a m. All-mem x a xs h.0 m), Falls-Pairwise xs h.1)

-- `insertionSort` returns the same elements in ascending order.
pub insertion_sort_lem :
    (xs : List ℕ) → Pairwise ◌≤◌ (insertion_sort xs) × Perm (insertion_sort xs) xs
insertion_sort_lem xs =
    unfold insertion_sort in
    (
      (Pairwise-reverse (λ a b. le_prop)).1
          (Falls-Pairwise (sort_onto [] xs) (sort_onto-Falls [] xs tt)),
      Perm.trans (reverse_perm (sort_onto [] xs))
          (subst (Perm (sort_onto [] xs)) (append-nil xs) (sort_onto-perm [] xs)),
    )
