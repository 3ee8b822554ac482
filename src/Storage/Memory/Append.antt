-- ===== src/Storage/Memory/Append.antt =====
-- raft/core/storage.go: `MemoryStorage.Append`, which overwrites the stored entries.
use yyckv.Base.{
  ℕ, ◌+◌, ◌-◌, ◌≤◌, ◌<◌, ◌≡◌, refl, ap, ◌∙◌, subst, List, [], ◌∷◌, ◌++◌, length, get_elem?,
  get_elem?-append, get_elem?-take, get_elem?-drop, length-append, length-take, length-drop, take,
  drop, take_all, take-drop_end, ltb, leb, if◌then◌else◌, arith, ok, Returns, max, dec_lt, ◌||◌,
}
use yyckv.Base.Word.{modulus, add64_exact, sub64_exact}
use yyckv.Pb.{Entry}
use yyckv.Unstable.View.{Contiguous, Contiguous-append, Contiguous-take, run_at}
use yyckv.Unstable.Reads.{Contiguous-drop}
use yyckv.Storage.Memory.{MemoryStorage, append, append_at}
use yyckv.Storage.Memory.Laws.{IsValid, head_of, first_index_lem}

-- The storage with its entries cut before index `n` and `es` put there.
replaced : MemoryStorage → ℕ → ℕ → List Entry → MemoryStorage
replaced m base n es = record { ents = take (n - base) m.ents ++ es }

module _ (m : MemoryStorage) (base : ℕ) (v : IsValid m base) (n : ℕ) (es : List Entry)
    (pos : 0 < length es) (run : Contiguous n es) (above : base < n)
    (near : n ≤ base + length m.ents) (room : n + length es < modulus) where
  append_at_lem : append_at m es ≡ ok (replaced m base n es)
  unfolding append_at replaced
  append_at_lem = ground (
    arith,
    head_of base m.ents v.some_ents v.run,
    head_of n es pos run,
    sub64_exact n base,
    take_all m.ents,
  )

  replaced-IsValid : IsValid (replaced m base n es) base
  unfolding replaced
  replaced-IsValid = record {
    some_ents = omega (arith, length-append (take (n - base) m.ents) es);
    run =
        Contiguous-append base (take (n - base) m.ents) es
          (Contiguous-take base (n - base) m.ents v.run) (subst (λ k. Contiguous k es) joins run);
    fits =
        omega
          (arith, length-append (take (n - base) m.ents) es, length-take (n - base) m.ents, room);
  }
    where
      joins : n ≡ base + length (take (n - base) m.ents)
      joins = omega (arith, length-take (n - base) m.ents)

  replaced_at :
      (i : ℕ)
      → run_at base (replaced m base n es).ents i
        ≡ (if ltb i n then run_at base m.ents i else run_at n es i)
  unfolding replaced
  replaced_at i = ground (
    arith,
    get_elem?-append (take (n - base) m.ents) es (i - base),
    get_elem?-take (n - base) m.ents (i - base),
    length-take (n - base) m.ents,
  )

append_fresh :
    (m : MemoryStorage) (base : ℕ) (v : IsValid m base) (n : ℕ) (es : List Entry)
    → Contiguous n es
    → n + length es < modulus
    → base + 1 < n + length es
    → 0 < length es
    → append m es ≡ append_at m (drop (base + 1 - n) es)
unfolding append
append_fresh m base v n [] run room fresh pos = absurd (omega arith)
append_fresh m base v n (e ∷ es) run room fresh pos = ground (
  arith,
  first_index_lem m base v,
  run.0,
  add64_exact n (length (e ∷ es)),
  sub64_exact (n + length (e ∷ es)) 1,
  sub64_exact (base + 1) n,
  take-drop_end (base + 1 - n) (e ∷ es),
)

append_stale :
    (m : MemoryStorage) (base : ℕ) (v : IsValid m base) (n : ℕ) (es : List Entry)
    → Contiguous n es
    → n + length es < modulus
    → n + length es ≤ base + 1
    → append m es ≡ ok m
unfolding append
append_stale m base v n [] run room stale = refl
append_stale m base v n (e ∷ es) run room stale = ground (
  arith,
  first_index_lem m base v,
  run.0,
  add64_exact n (length (e ∷ es)),
  sub64_exact (n + length (e ∷ es)) 1,
)

module _ (m : MemoryStorage) (base : ℕ) (v : IsValid m base) (n : ℕ) (es : List Entry)
    (run : Contiguous n es) (near : n ≤ base + length m.ents) (room : n + length es < modulus) where
  -- The entries that are not compacted, and where they start.
  kept : List Entry
  kept = drop (base + 1 - n) es

  start : ℕ
  start = max n (base + 1)

  kept_run : Contiguous start kept
  unfolding kept start
  kept_run =
      let at : n + (base + 1 - n) ≡ max n (base + 1) = omega arith in
      subst (λ k. Contiguous k (drop (base + 1 - n) es)) at
        (Contiguous-drop n (base + 1 - n) es run)

  kept_room : start + length kept < modulus
  unfolding kept start
  kept_room = omega (arith, length-drop (base + 1 - n) es, v.fits, v.some_ents)

  kept_at : (i : ℕ) → start ≤ i → run_at start kept i ≡ run_at n es i
  unfolding kept start
  kept_at i h =
      let at : (base + 1 - n) + (i - max n (base + 1)) ≡ i - n = omega arith in
      ground (arith, get_elem?-drop (base + 1 - n) es (i - max n (base + 1)), ap (get_elem? es) at)

  appended : MemoryStorage
  appended = replaced m base start kept

  append-kept :
      base + 1 < n + length es
      → 0 < length es
      → (append m es ≡ ok appended)
        × IsValid appended base
        × ((i : ℕ)
            → run_at base appended.ents i
              ≡ (if ltb i start then run_at base m.ents i else run_at start kept i))
  unfolding appended kept
  append-kept fresh pos = (
    append_fresh m base v n es run room fresh pos
        ∙ append_at_lem m base v start kept some_kept kept_run above close kept_room,
    replaced-IsValid m base v start kept some_kept kept_run above close kept_room,
    replaced_at m base v start kept some_kept kept_run above close kept_room,
  )
    where
      some_kept : 0 < length kept
      some_kept = unfold kept in omega (arith, length-drop (base + 1 - n) es)

      above : base < start
      above = unfold start in omega arith

      close : start ≤ base + length m.ents
      close = unfold start in omega (arith, v.some_ents)

  -- Appending at least one entry, with consecutive indices that leave no gap, returns a valid
  -- storage. It has the old entries before the new ones, and up to the first one it keeps; from there on it has the new entries alone.
  -- If they all come before, nothing changes.
  pub append-overwrites :
      0 < length es
      → Returns (append m es) λ m'.
        IsValid m' base
        × ((i : ℕ)
            → run_at base m'.ents i ≡ (
                if ltb i (max n (base + 1)) || leb (n + length es) (base + 1)
                then run_at base m.ents i
                else run_at n es i))
  append-overwrites pos = elim (dec_lt (base + 1) (n + length es)) [
    | yes fresh ↦
        let (done, valid, at) = append-kept fresh pos in
        rw done (valid, λ i. unfold start in ground (arith, at i, kept_at i))
    | no stale ↦ rw (append_stale m base v n es run room (omega arith)) (v, λ i. ground arith)
  ]
