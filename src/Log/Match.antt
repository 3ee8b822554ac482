-- ===== src/Log/Match.antt =====
-- raft/core/log.go: the searches `findConflict` and `findConflictByTerm`.
use yyckv.Base.{
  ℕ, zero, suc, ◌+◌, ◌-◌, ◌≤◌, ◌<◌, ◌≡◌, ◌≢◌, ◌⊎◌, inl, inr, false, refl, Option, none, some, List,
  [], ◌∷◌, length, leb, Bool-cases, Option-cases, if◌then◌else◌, arith, ok, Returns, Returns-map,
  sym, ◌∙◌, dec_lt,
}
use yyckv.Base.Word.{modulus}
use yyckv.Pb.{Entry}
use yyckv.Unstable.View.{Contiguous}
use yyckv.Log.{RaftLog, find_conflict, find_conflict_by_term}
use yyckv.Log.{zero_term_on_out_of_bounds}
use yyckv.Log.View.{
  Stable, IsValid, has_term, has_term_iff, term_at, last_index_lem, term_lem, match_term_lem,
}
use yyckv.Log.Append.{run_term}

-- The log has the terms of the entries `es`, which start at `n`, below index `k`.
abbrev pub Agrees : Stable → RaftLog → ℕ → List Entry → ℕ → Type 0
Agrees s l n es k = (i : ℕ) → n ≤ i → i < k → term_at s l i ≡ run_term n es i

-- `c` is 0 and the log has all of `es`, or `c` is the first index where it has not.
abbrev pub IsConflict : Stable → RaftLog → ℕ → List Entry → ℕ → Type 0
IsConflict s l n es c =
    ((c ≡ 0) × Agrees s l n es (n + length es))
    ⊎ ((n ≤ c) × (c < n + length es) × Agrees s l n es c × (term_at s l c ≢ run_term n es c))

lacks_term : (t : ℕ) (o : Option ℕ) → has_term t o ≡ false → o ≢ some t
lacks_term t none h = λ e. cc
lacks_term t (some t') h = λ e. ground arith

run_term-head : (n : ℕ) (e : Entry) (es : List Entry) → run_term n (e ∷ es) n ≡ some e.term
run_term-head n e es = ground (arith, sub_self)
  where
    sub_self : n - n ≡ 0
    sub_self = omega arith

run_term-cons :
    (n : ℕ) (e : Entry) (es : List Entry) (i : ℕ)
    → suc n ≤ i
    → run_term n (e ∷ es) i ≡ run_term (suc n) es i
run_term-cons n e es i h = rw (run_term, step)
  where
    step : i - n ≡ suc (i - suc n)
    step = omega arith

module _ (s : Stable) (l : RaftLog) (v : IsValid s l) where
  find_conflict-cons :
      (n : ℕ) (e : Entry) (es : List Entry)
      → n + 1 < modulus
      → e.index ≡ n
      → find_conflict l (e ∷ es)
        ≡ (if has_term e.term (term_at s l n) then find_conflict l es else ok n)
  unfolding find_conflict zero_term_on_out_of_bounds
  find_conflict-cons n e es small at =
      ground
        (arith, match_term_lem s l v n e.term small, last_index_lem s l v, term_lem s l v n small)

  Agrees-cons :
      (n : ℕ) (e : Entry) (es : List Entry) (k : ℕ)
      → term_at s l n ≡ some e.term
      → Agrees s l (suc n) es k
      → Agrees s l n (e ∷ es) k
  Agrees-cons n e es k here h i low high = elim (dec_lt n i) [
    | yes above ↦ h i above high ∙ sym (run_term-cons n e es i above)
    | no first ↦ let same : i ≡ n = omega arith in rw same (here ∙ sym (run_term-head n e es))
  ]

  IsConflict-cons :
      (n : ℕ) (e : Entry) (es : List Entry) (c : ℕ)
      → term_at s l n ≡ some e.term
      → IsConflict s l (suc n) es c
      → IsConflict s l n (e ∷ es) c
  IsConflict-cons n e es c here (inl (zero_c, agrees)) =
      inl (zero_c, λ i low high. Agrees-cons n e es _ here agrees i low (omega arith))
  IsConflict-cons n e es c here (inr (low, high, agrees, differs)) = inr (
    omega arith,
    omega arith,
    Agrees-cons n e es c here agrees,
    λ same. differs (same ∙ run_term-cons n e es c low),
  )

  -- `findConflict` of consecutive entries returns the first index at which the log has no entry, or
  -- one with another term, and 0 if there is none.
  pub find_conflict_lem :
      (n : ℕ) (es : List Entry)
      → 0 < n
      → Contiguous n es
      → n + length es < modulus
      → Returns (find_conflict l es) λ c. IsConflict s l n es c
  find_conflict_lem n [] pos run room =
      unfold find_conflict in inl (refl, λ i low high. absurd (omega arith))
  find_conflict_lem n (e ∷ es) pos run room =
      rw (find_conflict-cons n e es (omega arith) run.0)
        (elim (Bool-cases (has_term e.term (term_at s l n))) [
          | inl has ↦ rw has (
              Returns-map (find_conflict l es) _ _
                (find_conflict_lem (suc n) es (omega arith) run.1 (omega arith))
                λ c h. IsConflict-cons n e es c (has_term_iff _ _ has) h)
          | inr lacks ↦ rw lacks (
              inr (
                omega arith,
                omega arith,
                λ i low high. absurd (omega arith),
                λ same. lacks_term _ _ lacks (same ∙ run_term-head n e es),
              ))
        ])

  -- What `findConflictByTerm` returns from index `index`: an index `r.0` up to it.
  abbrev pub IsGuess : ℕ → ℕ → ℕ × ℕ → Type 0
  IsGuess index t r =
      (r.0 ≤ index)
      × ((r.0 ≡ 0) × (r.1 ≡ 0)
          ⊎ (term_at s l r.0 ≡ none) × (r.1 ≡ 0)
          ⊎ (term_at s l r.0 ≡ some r.1) × (r.1 ≤ t))
      × ((i : ℕ) → r.0 < i → i ≤ index → (t' : ℕ) × (term_at s l i ≡ some t') × (t < t'))

  find_conflict_by_term-suc :
      (index t : ℕ)
      → suc index + 1 < modulus
      → find_conflict_by_term l (suc index) t ≡ elim (term_at s l (suc index)) [
        | none ↦ ok (suc index, 0)
        | some t' ↦ if leb t' t then ok (suc index, t') else find_conflict_by_term l index t
      ]
  unfolding find_conflict_by_term
  find_conflict_by_term-suc index t small =
      rw (term_lem s l v (suc index) small)
        (elim (Option-cases (term_at s l (suc index))) [ inl e ↦ rw e | inr (t', e) ↦ rw e ])

  IsGuess-suc :
      (index t t' : ℕ) (r : ℕ × ℕ)
      → term_at s l (suc index) ≡ some t'
      → t < t'
      → IsGuess index t r
      → IsGuess (suc index) t r
  IsGuess-suc index t t' r here more h = (
    omega (arith, h.0),
    h.1,
    λ i low high. elim (dec_lt index i) [
      | yes last ↦ let same : i ≡ suc index = omega arith in (t', rw same here, more)
      | no below ↦ h.2 i low (omega arith)
    ],
  )

  -- `findConflictByTerm` returns the last index up to the given one, above 0, whose term is at most
  -- the given term or unknown, with that term or 0; if there is none, it returns 0 and 0. So the
  -- terms between are known and greater.
  pub find_conflict_by_term_lem :
      (index t : ℕ)
      → index + 1 < modulus
      → Returns (find_conflict_by_term l index t) λ r. IsGuess index t r
  find_conflict_by_term_lem zero t small =
      unfold find_conflict_by_term in
      (omega arith, inl (refl, refl), λ i low high. absurd (omega arith))
  find_conflict_by_term_lem (suc index) t small =
      rw (find_conflict_by_term-suc index t small) (elim (Option-cases (term_at s l (suc index))) [
        | inl e ↦ rw e (omega arith, inr (inl (e, refl)), λ i low high. absurd (omega arith))
        | inr (t', e) ↦ rw e (elim (Bool-cases (leb t' t)) [
          | inl fits ↦
              rw fits (omega arith, inr (inr (e, ground arith)), λ i low high. absurd (omega arith))
          | inr more ↦ rw more (
              Returns-map (find_conflict_by_term l index t) _ _
                (find_conflict_by_term_lem index t (omega arith))
                λ r h. IsGuess-suc index t t' r e (ground arith) h)
        ])
      ])
