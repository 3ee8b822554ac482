-- ===== src/Unstable/Append.antt =====
-- raft/core/log_unstable.go: `truncateAndAppend` overwrites the log from the first new index on.
use yyckv.Base.{
  ℕ, ◌+◌, ◌-◌, ◌≤◌, ◌<◌, ◌≡◌, List, ◌∷◌, ◌++◌, length, get_elem?, length-append, length-take,
  get_elem?-append, get_elem?-take, take, min, ltb, leb, ◌==◌, if◌then◌else◌, arith, ok, panic,
  log_panic, Returns,
}
use yyckv.Base.Word.{modulus, add64, sub64, add64_exact, sub64_exact}
use yyckv.Pb.{Entry}
use yyckv.Unstable.{Unstable, slice, truncate_and_append}
use yyckv.Unstable.View.{IsValid, Contiguous, Contiguous-append, Contiguous-take, entry_at}

-- What the three cases of the switch make of a valid log.
overwritten : Unstable → Entry → List Entry → Unstable
overwritten u e es =
    if e.index == u.offset + length u.entries
    then record u { entries = u.entries ++ (e ∷ es) }
    else if leb e.index u.offset
    then record u { entries = e ∷ es; offset = e.index; offset_in_progress = e.index }
    else record u {
      entries = take (e.index - u.offset) u.entries ++ (e ∷ es);
      offset_in_progress = min u.offset_in_progress e.index;
    }

-- The log `u'` is valid, has the snapshot of `u`, starts at the lower of the offset of `u` and the
-- first new index, and holds the entries of `u` below that index and the new ones from there on.
pub record Overwrites (u u' : Unstable) (e : Entry) (es : List Entry) : Type 0 where
  pub valid : IsValid u'
  pub same_snapshot : u'.snapshot ≡ u.snapshot
  pub start : u'.offset ≡ min u.offset e.index
  pub ends : u'.offset + length u'.entries ≡ e.index + length (e ∷ es)
  pub content :
      (i : ℕ)
      → entry_at u' i ≡ (if ltb i e.index then entry_at u i else get_elem? (e ∷ es) (i - e.index))

module _ (u : Unstable) (e : Entry) (es : List Entry) (v : IsValid u) where
  keep_lem :
      u.offset ≤ e.index
      → e.index ≤ u.offset + length u.entries
      → slice u u.offset e.index ≡ ok (take (e.index - u.offset) u.entries)
  unfolding slice
  keep_lem h k =
      let same : sub64 u.offset u.offset ≡ 0 = omega (arith, v, sub64_exact u.offset u.offset) in
      let upto : sub64 e.index u.offset ≡ e.index - u.offset =
        omega (arith, v, sub64_exact e.index u.offset) in
      let end : add64 u.offset (length u.entries) ≡ u.offset + length u.entries =
        add64_exact u.offset (length u.entries) v.fits in
      rw (same, upto, end) (ground arith)

  truncate_and_append-overwritten :
      e.index ≤ u.offset + length u.entries
      → truncate_and_append u (e ∷ es) ≡ ok (overwritten u e es)
  unfolding truncate_and_append overwritten
  truncate_and_append-overwritten h =
      ground (arith, keep_lem, add64_exact u.offset (length u.entries) v.fits)

  overwritten-IsValid :
      Contiguous e.index (e ∷ es)
      → e.index ≤ u.offset + length u.entries
      → e.index + length (e ∷ es) < modulus
      → IsValid (overwritten u e es)
  unfolding overwritten
  overwritten-IsValid run near room = ground (
    arith,
    length-append u.entries (e ∷ es),
    length-append (take (e.index - u.offset) u.entries) (e ∷ es),
    length-take (e.index - u.offset) u.entries,
    Contiguous-append u.offset u.entries (e ∷ es) v.contiguous,
    Contiguous-append u.offset (take (e.index - u.offset) u.entries) (e ∷ es)
        (Contiguous-take u.offset (e.index - u.offset) u.entries v.contiguous),
  )

  entry_at-overwritten :
      (i : ℕ)
      → e.index ≤ u.offset + length u.entries
      → entry_at (overwritten u e es) i
        ≡ (if ltb i e.index then entry_at u i else get_elem? (e ∷ es) (i - e.index))
  unfolding overwritten
  entry_at-overwritten i near = ground (
    arith,
    get_elem?-append u.entries (e ∷ es) (i - u.offset),
    get_elem?-append (take (e.index - u.offset) u.entries) (e ∷ es) (i - u.offset),
    get_elem?-take (e.index - u.offset) u.entries (i - u.offset),
    length-take (e.index - u.offset) u.entries,
  )

  overwritten_fields :
      ((overwritten u e es).snapshot ≡ u.snapshot)
      × (e.index ≤ u.offset + length u.entries
          → ((overwritten u e es).offset ≡ min u.offset e.index)
            × ((overwritten u e es).offset + length (overwritten u e es).entries
                ≡ e.index + length (e ∷ es)))
  unfolding overwritten
  overwritten_fields = (
    ground arith,
    λ near. (
      ground arith,
      ground (
        arith,
        length-append u.entries (e ∷ es),
        length-append (take (e.index - u.offset) u.entries) (e ∷ es),
        length-take (e.index - u.offset) u.entries,
      ),
    ),
  )

  -- Appending entries with consecutive indices that start at most one past the end returns a valid
  -- log: below the first new index it is the old one, and from there on it is the new entries alone.
  -- The snapshot stays, and the offset falls to the first new index if that is lower.
  pub truncate_and_append-refines :
      Contiguous e.index (e ∷ es)
      → e.index ≤ u.offset + length u.entries
      → e.index + length (e ∷ es) < modulus
      → Returns (truncate_and_append u (e ∷ es)) λ u'. Overwrites u u' e es
  truncate_and_append-refines run near room = rw (truncate_and_append-overwritten near) record {
    valid = overwritten-IsValid run near room;
    same_snapshot = overwritten_fields.0;
    start = (overwritten_fields.1 near).0;
    ends = (overwritten_fields.1 near).1;
    content = λ i. entry_at-overwritten i near;
  }

  -- Appending entries that leave a gap after the end panics.
  pub truncate_and_append_gap :
      u.offset + length u.entries < e.index → truncate_and_append u (e ∷ es) ≡ panic log_panic
  unfolding truncate_and_append slice
  truncate_and_append_gap gap = ground (arith, add64_exact u.offset (length u.entries) v.fits)
