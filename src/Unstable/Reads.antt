-- ===== src/Unstable/Reads.antt =====
-- raft/core/log_unstable.go: what the readers return of a valid log, by its view `entry_at`.
use mathlib.Core.Option
use yyckv.Base.{
  ℕ, suc, ◌+◌, ◌-◌, ◌≤◌, ◌<◌, ◌≡◌, ap, ◌⊎◌, none, some, List, [], length, get_elem?, length-drop,
  length-take, take, drop, get_elem?-take, get_elem?-drop, get_elem?_above, get_elem?_below, ltb,
  if◌then◌else◌, Returns-map, sym, ◌∙◌, arith, ok, panic, log_panic, Returns, zero, ◌∷◌,
}
use yyckv.Base.Word.{modulus, add64, sub64, add64_exact, sub64_exact}
use yyckv.Pb.{Entry}
use yyckv.Unstable.{Unstable, slice, maybe_last_index, maybe_term, next_entries}
use yyckv.Unstable.View.{IsValid, Contiguous, Contiguous-take, entry_at}

pub Contiguous-drop : (n k : ℕ) (xs : List Entry) → Contiguous n xs → Contiguous (n + k) (drop k xs)
Contiguous-drop n zero xs h = ground arith
Contiguous-drop n (suc k) [] h = tt
Contiguous-drop n (suc k) (x ∷ xs) h = ground (arith, Contiguous-drop (suc n) k xs h.1)

module _ (u : Unstable) (v : IsValid u) where
  end_lem : add64 u.offset (length u.entries) ≡ u.offset + length u.entries
  end_lem = add64_exact u.offset (length u.entries) v.fits

  pub maybe_last_index_lem :
      u.snapshot ≡ none
      → maybe_last_index u
        ≡ (if ltb 0 (length u.entries) then some (u.offset + length u.entries - 1) else none)
  unfolding maybe_last_index
  maybe_last_index_lem no_snap =
      ground (arith, end_lem, v, sub64_exact (u.offset + length u.entries) 1)

  pub maybe_term_lem :
      (i : ℕ)
      → u.snapshot ≡ none
      → i < modulus
      → maybe_term u i ≡ ok (Option.map (λ e. e.term) (entry_at u i))
  unfolding maybe_term
  maybe_term_lem i no_snap small = ground (
    arith,
    end_lem,
    v,
    sub64_exact (u.offset + length u.entries) 1,
    sub64_exact i u.offset,
    get_elem?_above u.entries (i - u.offset),
    get_elem?_below u.entries (i - u.offset),
  )

  slice_value :
      (lo hi : ℕ)
      → u.offset ≤ lo
      → lo ≤ hi
      → hi ≤ u.offset + length u.entries
      → slice u lo hi ≡ ok (take (hi - lo) (drop (lo - u.offset) u.entries))
  unfolding slice
  slice_value lo hi a b c =
      ground (arith, end_lem, v, sub64_exact lo u.offset, sub64_exact hi u.offset)

  -- Within the bounds of the log, `slice` returns the entries with the indices from `lo` to
  -- `hi - 1`, in order.
  pub slice_lem :
      (lo hi : ℕ)
      → u.offset ≤ lo
      → lo ≤ hi
      → hi ≤ u.offset + length u.entries
      → Returns (slice u lo hi) λ es.
        Contiguous lo es
        × (length es ≡ hi - lo)
        × ((i : ℕ) → lo + i < hi → get_elem? es i ≡ entry_at u (lo + i))
  slice_lem lo hi a b c = rw (slice_value lo hi a b c) (
    Contiguous-take lo (hi - lo) kept run,
    omega (arith, length-take (hi - lo) kept, length-drop (lo - u.offset) u.entries),
    λ i h. ground (
      arith,
      get_elem?-take (hi - lo) kept i,
      get_elem?-drop (lo - u.offset) u.entries i,
      ap (get_elem? u.entries) (position i),
    ),
  )
    where
      kept : List Entry
      kept = drop (lo - u.offset) u.entries

      run : Contiguous lo (drop (lo - u.offset) u.entries)
      run = ground (arith, Contiguous-drop u.offset (lo - u.offset) u.entries v.contiguous)

      position : (i : ℕ) → (lo - u.offset) + i ≡ lo + i - u.offset
      position i = omega arith

  -- Outside those bounds it panics.
  pub slice_out_of_bounds :
      (lo hi : ℕ)
      → (hi < lo) ⊎ (lo < u.offset) ⊎ (u.offset + length u.entries < hi)
      → slice u lo hi ≡ panic log_panic
  unfolding slice
  slice_out_of_bounds lo hi out = ground (arith, end_lem)

  next_entries-slice : next_entries u ≡ slice u u.offset_in_progress (u.offset + length u.entries)
  next_entries-slice =
      next_entries_value
      ∙ sym (slice_value u.offset_in_progress _ v.progress_low v.progress_high (omega arith))
    where
      started : ℕ
      started = u.offset_in_progress - u.offset

      started_lem : sub64 u.offset_in_progress u.offset ≡ u.offset_in_progress - u.offset
      started_lem = omega (arith, v, sub64_exact u.offset_in_progress u.offset)

      left_lem : length u.entries - started ≡ u.offset + length u.entries - u.offset_in_progress
      left_lem = omega (arith, v)

      next_entries_value :
          next_entries u
          ≡ ok (take (u.offset + length u.entries - u.offset_in_progress) (drop started u.entries))
      next_entries_value = unfold next_entries in rw (started_lem, ← left_lem) (ground (arith, v))

  -- `nextEntries` returns the entries from the first one that is not in progress to the end.
  pub next_entries_lem : Returns (next_entries u) λ es.
      (length es ≡ u.offset + length u.entries - u.offset_in_progress)
      × ((i : ℕ) → get_elem? es i ≡ entry_at u (u.offset_in_progress + i))
  next_entries_lem = rw next_entries-slice (
      Returns-map (slice u u.offset_in_progress (u.offset + length u.entries)) _ _
        (slice_lem u.offset_in_progress _ v.progress_low v.progress_high (omega arith))
        λ es h. (
          h.1,
          λ i. ground (
            arith,
            h.1,
            h.2 i,
            v,
            get_elem?_above es i,
            get_elem?_above u.entries (u.offset_in_progress + i - u.offset),
          ),
        ))
