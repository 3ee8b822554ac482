-- ===== src/Log/Conflict.antt =====
-- raft/core/log.go: the switch of `maybeAppend`, which appends the given entries from the first conflict.
use yyckv.Base.{
  ℕ, ◌+◌, ◌-◌, ◌≤◌, ◌<◌, ◌≡◌, ◌≢◌, ◌⊎◌, inl, inr, refl, subst, ◌∙◌, some, List, length, drop,
  get_elem?-drop, get_elem?_below, length-drop, take-drop_end, arith, ok, Returns, Returns-value,
  dec_lt, sym, ◌>>=◌, ap, get_elem?, if◌then◌else◌, ltb,
}
use yyckv.Base.Word.{modulus, add64_exact, sub64_exact}
use yyckv.Pb.{Entry}
use yyckv.Unstable.View.{Contiguous, run_at, entry_at}
use yyckv.Unstable.Reads.{Contiguous-drop}
use yyckv.Log.{RaftLog, append, append_conflict}
use yyckv.Log.View.{Stable, IsValid, end_of, term_at, known_in_range}
use yyckv.Log.Append.{run_term, append_lem, Overwrites}
use yyckv.Log.Match.{Agrees, IsConflict}

run_term-drop :
    (n k : ℕ) (es : List Entry) (i : ℕ)
    → n + k ≤ i
    → run_term (n + k) (drop k es) i ≡ run_term n es i
run_term-drop n k es i h = rw (run_term, get_elem?-drop k es (i - (n + k)), at)
  where
    at : k + (i - (n + k)) ≡ i - n
    at = omega arith

run_term_known :
    (n : ℕ) (es : List Entry) (i : ℕ)
    → n ≤ i
    → i < n + length es
    → (t : ℕ) × (run_term n es i ≡ some t)
run_term_known n es i low high =
    let (e, here) = get_elem?_below es (i - n) (omega arith) in (e.term, rw (here, run_term))

-- How the entries `es`, which start at `n`, come into the log: either it has all their terms, and its
-- entries stay, or `c` is the first index where it lacks the term, and its unstable entries from `c` on
-- are the given ones.
abbrev pub Placed : Stable → RaftLog → RaftLog → ℕ → List Entry → Type 0
Placed s l l' n es =
    Agrees s l n es (n + length es) × (l'.unstable ≡ l.unstable)
    ⊎ (c : ℕ) × (n ≤ c)
      × (c < n + length es)
      × Agrees s l n es c
      × (term_at s l c ≢ run_term n es c)
      × ((i : ℕ)
          → entry_at l'.unstable i ≡ (if ltb i c then entry_at l.unstable i else run_at n es i))

-- The log `l'` has the entries `es` after `index`, the terms of `l` up to `index`, and past the new
-- entries either all of `l` or nothing.
pub record Extends (s : Stable) (l l' : RaftLog) (index : ℕ) (es : List Entry) : Type 0 where
  pub valid : IsValid s l'
  pub reaches : index + length es ≤ end_of s l'
  pub agrees : Agrees s l' (index + 1) es (index + 1 + length es)
  pub keeps : (i : ℕ) → i ≤ index → term_at s l' i ≡ term_at s l i
  pub placed : Placed s l l' (index + 1) es
  pub same_rest : l' ≡ record l { unstable = l'.unstable; committed = l'.committed }
  pub rest : ((i : ℕ) → term_at s l' i ≡ term_at s l i) ⊎ (end_of s l' ≡ index + length es)

module _ (s : Stable) (l : RaftLog) (v : IsValid s l) (index : ℕ) (es : List Entry)
    (run : Contiguous (index + 1) es) (room : index + 1 + length es < modulus)
    (known : (t : ℕ) × (term_at s l index ≡ some t)) where
  -- The log has every entry before an index up to which it agrees.
  Agrees-reach :
      (c : ℕ)
      → index + 1 ≤ c
      → c ≤ index + 1 + length es
      → Agrees s l (index + 1) es c
      → c ≤ end_of s l + 1
  Agrees-reach c low high h = elim (dec_lt (index + 1) c) [
    | yes more ↦
        let (t, eq) = run_term_known (index + 1) es (c - 1) (omega arith) (omega arith) in
        let here = known_in_range s l v (c - 1) t (h (c - 1) (omega arith) (omega arith) ∙ eq) in
        omega (arith, here)
    | no first ↦ omega (arith, known_in_range s l v index known.0 known.1)
  ]

  append_at_conflict :
      (c : ℕ)
      → index + 1 ≤ c
      → c < index + 1 + length es
      → l.committed < c
      → append_conflict l index c es ≡ (append l (drop (c - (index + 1)) es) >>= λ r. ok r.0)
  unfolding append_conflict
  append_at_conflict c low high after =
      ground
        (arith, add64_exact index 1, sub64_exact c (index + 1), take-drop_end (c - (index + 1)) es)

  tail_run : (c : ℕ) → index + 1 ≤ c → Contiguous c (drop (c - (index + 1)) es)
  tail_run c low =
      let at : index + 1 + (c - (index + 1)) ≡ c = omega arith in
      subst (λ k. Contiguous k (drop (c - (index + 1)) es)) at
        (Contiguous-drop (index + 1) (c - (index + 1)) es run)

  run_term_tail :
      (c i : ℕ)
      → index + 1 ≤ c
      → c ≤ i
      → run_term c (drop (c - (index + 1)) es) i ≡ run_term (index + 1) es i
  run_term_tail c i low h =
      let at : index + 1 + (c - (index + 1)) ≡ c = omega arith in
      subst (λ k. run_term k (drop (c - (index + 1)) es) i ≡ run_term (index + 1) es i) at
        (run_term-drop (index + 1) (c - (index + 1)) es i (omega arith))

  run_at_tail :
      (c i : ℕ)
      → index + 1 ≤ c
      → c ≤ i
      → run_at c (drop (c - (index + 1)) es) i ≡ run_at (index + 1) es i
  run_at_tail c i low h =
      let at : c - (index + 1) + (i - c) ≡ i - (index + 1) = omega arith in
      let same : get_elem? (drop (c - (index + 1)) es) (i - c) ≡ get_elem? es (i - (index + 1)) =
        get_elem?-drop (c - (index + 1)) es (i - c) ∙ ap (get_elem? es) at in
      ground (arith, same)

  overwritten_end :
      (l' : RaftLog) (c : ℕ)
      → index + 1 ≤ c
      → c < index + 1 + length es
      → Overwrites s l l' c (drop (c - (index + 1)) es)
      → end_of s l' ≡ index + length es
  overwritten_end l' c low high o = omega (arith, o.end_eq, length-drop (c - (index + 1)) es)

  -- Overwriting from the first conflict on makes the log agree with all the entries.
  Overwrites-Extends :
      (l' : RaftLog) (c : ℕ)
      → index + 1 ≤ c
      → c < index + 1 + length es
      → Agrees s l (index + 1) es c
      → term_at s l c ≢ run_term (index + 1) es c
      → Overwrites s l l' c (drop (c - (index + 1)) es)
      → Extends s l l' index es
  Overwrites-Extends l' c low high agrees differs o = record {
    valid = o.valid;
    reaches = omega (arith, overwritten_end l' c low high o);
    agrees = λ i from upto. ground (arith, o.content i, agrees i from, run_term_tail c i low);
    keeps = λ i h. ground (arith, o.content i);
    placed =
        inr (c, low, high, agrees, differs, λ i. ground (arith, o.entries i, run_at_tail c i low));
    same_rest =
        o.same_rest
        ∙ ap (λ c. record l { unstable = l'.unstable; committed = c })
            (sym (ap RaftLog.committed o.same_rest));
    rest = inr (overwritten_end l' c low high o);
  }

  pub append_conflict_lem :
      (c : ℕ)
      → IsConflict s l (index + 1) es c
      → (c ≢ 0 → l.committed < c)
      → Returns
          (append_conflict l index c es)
          λ l'. Extends s l l' index es × (l'.committed ≡ l.committed)
  append_conflict_lem c (inl (zero_c, agrees)) after = rw zero_c (
      unfold append_conflict in
      (
        record {
          valid = v;
          reaches = omega (arith, Agrees-reach _ (omega arith) (omega arith) agrees);
          agrees = agrees;
          keeps = λ i h. refl;
          placed = inl (agrees, refl);
          same_rest = refl;
          rest = inl (λ i. refl);
        },
        refl,
      ))
  append_conflict_lem c (inr (low, high, agrees, differs)) after =
      let above : l.committed < c = after (λ is_zero. absurd (omega arith)) in
      let (r, done, o) = Returns-value (append l (drop (c - (index + 1)) es)) _ (
        append_lem s l v c (drop (c - (index + 1)) es)
          (omega (arith, length-drop (c - (index + 1)) es)) (tail_run c low) above
          (Agrees-reach c low (omega arith) agrees)
          (omega (arith, length-drop (c - (index + 1)) es))) in
      rw (append_at_conflict c low high above, done)
        (Overwrites-Extends r.0 c low high agrees differs o.0, ap RaftLog.committed o.0.same_rest)
