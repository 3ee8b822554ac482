-- ===== src/Storage/Memory/Laws.antt =====
-- raft/core/storage.go: what `Term`, `FirstIndex` and `LastIndex` of a `MemoryStorage` return.
use yyckv.Base.{
  ℕ, ◌+◌, ◌-◌, ◌≤◌, ◌<◌, ◌≡◌, refl, none, some, List, [], ◌∷◌, length, get_elem?, get_elem?_below,
  arith, ok, panic, out_of_range, ◌⊎◌, inl, inr, dec_lt, get_elem?_above,
}
use yyckv.Base.Word.{modulus, add64_exact, sub64_exact}
use yyckv.Pb.{Entry}
use yyckv.Unstable.View.{Contiguous, run_at}
use yyckv.Storage.Contract.{Holds}
use yyckv.Storage.Defs as Storage
use yyckv.Storage.Memory.{MemoryStorage, first_index, last_index, term, as_storage}

-- The entries carry consecutive indices, and the last fits a word.
pub record IsValid (m : MemoryStorage) (base : ℕ) : Type 0 where
  pub some_ents : 0 < length m.ents
  pub run : Contiguous base m.ents
  pub fits : base + length m.ents < modulus

-- What `Term` returns at an index, if the first entry has the index `base`.
abbrev pub Reads : MemoryStorage → ℕ → ℕ → Type 0
Reads m base i =
    (i < base) × (term m i ≡ ok (Storage.failed Storage.compacted))
    ⊎ ((e : Entry) × (run_at base m.ents i ≡ some e) × (term m i ≡ ok (Storage.found e.term)))
    ⊎ (base + length m.ents ≤ i)
      × (i < base + 9223372036854775808)
      × (term m i ≡ ok (Storage.failed Storage.unavailable))
    ⊎ (base + length m.ents ≤ i)
      × (base + 9223372036854775808 ≤ i)
      × (term m i ≡ panic out_of_range)

abbrev pub term_of : List Entry → ℕ → ℕ
term_of es i = elim (get_elem? es i) [ none ↦ 0 | some e ↦ e.term ]

pub head_of :
    (base : ℕ) (es : List Entry)
    → 0 < length es
    → Contiguous base es
    → (e : Entry) × (get_elem? es 0 ≡ some e) × (e.index ≡ base)
head_of base [] pos run = absurd (omega arith)
head_of base (e ∷ es) pos run = (e, refl, run.0)

module _ (m : MemoryStorage) (base : ℕ) (v : IsValid m base) where
  pub first_index_lem : first_index m ≡ ok (base + 1)
  unfolding first_index
  first_index_lem = ground (arith, v, head_of base m.ents v.some_ents v.run, add64_exact base 1)

  last_index_lem : last_index m ≡ ok (base + length m.ents - 1)
  unfolding last_index
  last_index_lem = ground (
    arith,
    v,
    head_of base m.ents v.some_ents v.run,
    add64_exact base (length m.ents),
    sub64_exact (base + length m.ents) 1,
  )

  term_lem :
      (i : ℕ)
      → base ≤ i
      → i ≤ base + length m.ents - 1
      → term m i ≡ ok (Storage.found (term_of m.ents (i - base)))
  unfolding term
  term_lem i low high = ground (
    arith,
    v,
    head_of base m.ents v.some_ents v.run,
    sub64_exact i base,
    get_elem?_below m.ents (i - base),
  )

  -- `Term` of a valid `MemoryStorage`, at a word: an index before the first entry kept, which stands for
  -- the compacted ones, is compacted; at that of an entry kept it returns the term of the entry; past the
  -- last one the term is unavailable, but from 2^63 past the first one on `Term` panics.
  pub term-Reads : (i : ℕ) → i < modulus → Reads m base i
  unfolding term
  term-Reads i word =
      let (head, at, same) = head_of base m.ents v.some_ents v.run in
      elim (dec_lt i base) [
        | yes old ↦ inl (old, ground (arith, at, same, old))
        | no kept ↦
            let exact = sub64_exact i base (omega arith) word in
            elim (dec_lt i (base + length m.ents)) [
              | yes low ↦
                  let (e, here) = get_elem?_below m.ents (i - base) (omega arith) in
                  inr (inl (e, ground (arith, here), ground (arith, at, same, exact, here)))
              | no past ↦
                  let gone = get_elem?_above m.ents (i - base) (omega arith) in
                  elim (dec_lt i (base + 9223372036854775808)) [
                    | yes near ↦
                        inr (inr (inl (omega arith, near, ground (arith, at, same, exact, past))))
                    | no far ↦ inr (
                        inr (inr (omega arith, omega arith, ground (arith, at, same, exact, gone))))
                  ]
            ]
      ]

  -- The parts of the contract of `Storage`, which leaves out `Entries`.
  pub as_storage-Holds :
      Holds (as_storage m) (base + 1) (base + length m.ents - 1) (λ i. term_of m.ents (i - base))
  unfolding as_storage
  as_storage-Holds = record {
    first_eq = rw first_index_lem;
    last_eq = rw last_index_lem;
    first_pos = omega arith;
    ordered = omega (arith, v.some_ents);
    fits = omega (arith, v.some_ents, v.fits);
    term_eq = λ i low high. term_lem i (omega arith) high;
  }
