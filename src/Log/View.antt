-- ===== src/Log/View.antt =====
-- raft/core/log.go: the log as a partial function from indices to terms, its invariant, and what
-- `firstIndex`, `lastIndex`, `term` and `matchTerm` read.
use yyckv.Base.{
  ℕ, ◌+◌, ◌-◌, ◌≤◌, ◌<◌, ◌≡◌, true, false, Option, none, some, Bool, length, ltb, leb, ◌==◌, ◌&&◌,
  if◌then◌else◌, arith, ok, inl, inr, Option-cases, get_elem?_above, get_elem?_below,
}
use yyckv.Base.Word.{modulus, add64_exact}
use yyckv.Storage.{found, failed, compacted, unavailable, Holds}
use yyckv.Unstable
use yyckv.Unstable.{Unstable}
use yyckv.Unstable.View.{entry_at}
use yyckv.Unstable.Reads.{maybe_last_index_lem, maybe_term_lem}
use yyckv.Log.{RaftLog, first_index, last_index, term, match_term, stable_term}

-- What the storage holds, as its contract has it.
pub record Stable : Type 0 where
  pub first : ℕ
  pub last : ℕ
  pub terms : ℕ → ℕ

-- The index of the last entry.
abbrev pub end_of : Stable → RaftLog → ℕ
end_of s l =
    if ltb 0 (length l.unstable.entries)
    then l.unstable.offset + length l.unstable.entries - 1
    else s.last

-- The term at an index: of the unstable entry, or else of the storage.
unfoldable pub term_at : Stable → RaftLog → ℕ → Option ℕ
term_at s l i = elim (entry_at l.unstable i) [
  | some e ↦ some e.term
  | none ↦ if leb s.first (i + 1) && leb i (end_of s l) then some (s.terms i) else none
]

-- The term at an index is known to be `t`.
abbrev pub has_term : ℕ → Option ℕ → Bool
has_term t none = false
has_term t (some t') = t' == t

pub has_term_iff : (t : ℕ) (o : Option ℕ) → has_term t o ≡ true → o ≡ some t
has_term_iff t none h = cc
has_term_iff t (some t') h = ground arith

pub record IsValid (s : Stable) (l : RaftLog) : Type 0 where
  pub holds : Holds l.storage s.first s.last s.terms
  pub no_snapshot : l.unstable.snapshot ≡ none
  pub unstable : Unstable.View.IsValid l.unstable
  pub low : s.first ≤ l.unstable.offset
  pub joined : l.unstable.offset ≤ s.last + 1
  pub flush : length l.unstable.entries ≡ 0 → l.unstable.offset ≡ s.last + 1
  pub committed_low : s.first ≤ l.committed + 1
  pub committed_high : l.committed ≤ end_of s l

module _ (s : Stable) (l : RaftLog) (v : IsValid s l) where
  pub first_index_lem : first_index l ≡ ok s.first
  unfolding first_index Unstable.maybe_first_index
  first_index_lem = rw (v.no_snapshot, v.holds.first_eq)

  pub last_index_lem : last_index l ≡ ok (end_of s l)
  unfolding last_index
  last_index_lem =
      rw (maybe_last_index_lem l.unstable v.unstable v.no_snapshot)
        (ground (arith, v.holds.last_eq))

  pub end_fits : end_of s l + 1 < modulus
  end_fits = ground (arith, v.unstable.fits, v.holds.fits)

  below_last : (i : ℕ) → entry_at l.unstable i ≡ none → i ≤ end_of s l → i ≤ s.last
  below_last i e h =
      ground
        (arith, v, get_elem?_below l.unstable.entries (i - l.unstable.offset), v.flush, v.joined)

  -- An index with a known term is at most the last one.
  pub known_in_range : (i t : ℕ) → term_at s l i ≡ some t → i ≤ end_of s l
  unfolding term_at
  known_in_range i t known =
      ground (arith, get_elem?_above l.unstable.entries (i - l.unstable.offset))

  pub last_is_known : (t : ℕ) × (term_at s l (end_of s l) ≡ some t)
  unfolding term_at
  last_is_known = elim (Option-cases (entry_at l.unstable (end_of s l))) [
    | inr (e, eq) ↦ (e.term, rw (eq, term_at))
    | inl eq ↦ (s.terms (end_of s l), rw (eq, term_at) (ground (arith, v.low, v.holds.ordered)))
  ]

  stable_term_lem :
      (i : ℕ)
      → i + 1 < modulus
      → entry_at l.unstable i ≡ none
      → stable_term l i
        ≡ ok (
            if leb s.first (i + 1) && leb i (end_of s l)
            then found (s.terms i)
            else failed (if ltb (i + 1) s.first then compacted else unavailable))
  unfolding stable_term
  stable_term_lem i small none_here =
      rw (first_index_lem, last_index_lem, add64_exact i 1 small)
        (ground (arith, v.holds.term_eq i, below_last i none_here))

  pub term_lem :
      (i : ℕ)
      → i + 1 < modulus
      → term l i
        ≡ ok (elim (term_at s l i) [
          | some t ↦ found t
          | none ↦ failed (if ltb (i + 1) s.first then compacted else unavailable)
        ])
  unfolding term term_at
  term_lem i small =
      rw (maybe_term_lem l.unstable v.unstable i v.no_snapshot (omega arith))
        (elim (Option-cases (entry_at l.unstable i)) [
          | inl e ↦ rw e (rw (stable_term_lem i small e) (ground arith))
          | inr (x, e) ↦ rw e
        ])

  -- The entry at an index has a given term.
  pub match_term_lem :
      (i t : ℕ) → i + 1 < modulus → match_term l i t ≡ ok (has_term t (term_at s l i))
  unfolding match_term
  match_term_lem i t small = ground (arith, term_lem i small)
