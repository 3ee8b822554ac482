-- ===== src/Kv/Replay.antt =====
-- kv/raftNode.go: whatever the batches, the data that is published is that of the log, in order and once.
use mathlib.Core.List.{append_assoc, append-nil}
use yyckv.Base.{
  Text, ℕ, zero, suc, ◌+◌, ◌-◌, ◌≤◌, ◌<◌, ◌≡◌, ◌⊎◌, inl, inr, refl, ap, sym, ◌∙◌, subst, Bool, true,
  List, [], ◌∷◌, ◌++◌, length, take, drop, All, ok, leb, arith, Yields, Yields-bind, Yields-map,
  Bool-cases, length-take, length-drop,
}
use mathlib.Core.Path.{ap₂}
use yyckv.Base.Word.{modulus}
use yyckv.Pb.{Entry, ConfChange}
use yyckv.Base.{Option}
use yyckv.Kv.{RaftNode, entries_to_apply, publish_entries, serve_committed, serve_channels, last_of}
use yyckv.Kv.Publish.{
  IsRun, entries_to_apply_lem, contents, contents-append, publish_entries-contents,
}

module _ {ℓ} {A : Type ℓ} where
  pub drop_none : (k : ℕ) → drop {A = A} k [] ≡ []
  drop_none zero = refl
  drop_none (suc k) = refl

  take_none : (k : ℕ) → take {A = A} k [] ≡ []
  take_none zero = refl
  take_none (suc k) = refl

  drop-take : (k m : ℕ) (xs : List A) → drop k (take m xs) ≡ take (m - k) (drop k xs)
  drop-take zero m xs = let e : m ≡ m - 0 = omega arith in ap (λ n. take n xs) e
  drop-take (suc k) zero xs =
      let e : 0 ≡ 0 - suc k = omega arith in ap (λ n. take n (drop (suc k) xs)) e
  drop-take (suc k) (suc m) [] = sym (take_none (suc m - suc k))
  drop-take (suc k) (suc m) (x ∷ xs) =
      let e : m - k ≡ suc m - suc k = omega arith in
      drop-take k m xs ∙ ap (λ n. take n (drop k xs)) e

  drop-drop : (k n : ℕ) (xs : List A) → drop k (drop n xs) ≡ drop (n + k) xs
  drop-drop k zero xs = let e : k ≡ 0 + k = omega arith in ap (λ i. drop i xs) e
  drop-drop k (suc n) [] = drop_none k ∙ sym (drop_none (suc n + k))
  drop-drop k (suc n) (x ∷ xs) =
      let e : suc (n + k) ≡ suc n + k = omega arith in
      drop-drop k n xs ∙ ap (λ i. drop i (x ∷ xs)) e

  take-take-drop : (a k : ℕ) (xs : List A) → take a xs ++ take k (drop a xs) ≡ take (a + k) xs
  take-take-drop zero k xs = let e : k ≡ 0 + k = omega arith in ap (λ n. take n xs) e
  take-take-drop (suc a) k [] = take_none k ∙ sym (take_none (suc a + k))
  take-take-drop (suc a) k (x ∷ xs) =
      let e : suc (a + k) ≡ suc a + k = omega arith in
      ap (◌∷◌ x) (take-take-drop a k xs) ∙ ap (λ n. take n (x ∷ xs)) e

IsRun-drop : (n k : ℕ) (xs : List Entry) → IsRun n xs → IsRun (n + k) (drop k xs)
IsRun-drop n zero xs h = subst (λ i. IsRun i xs) (omega arith) h
IsRun-drop n (suc k) [] h = tt
IsRun-drop n (suc k) (x ∷ xs) h =
    subst (λ i. IsRun i (drop k xs)) (omega arith) (IsRun-drop (suc n) k xs h.1)

IsRun-take : (n k : ℕ) (xs : List Entry) → IsRun n xs → IsRun n (take k xs)
IsRun-take n zero xs h = tt
IsRun-take n (suc k) [] h = tt
IsRun-take n (suc k) (x ∷ xs) h = (h.0, IsRun-take (suc n) k xs h.1)

pub IsRun-last_of : (n : ℕ) (xs : List Entry) → IsRun n xs → last_of n xs ≡ n + length xs
IsRun-last_of n [] h = omega arith
IsRun-last_of n (x ∷ xs) h = rw h.0 (IsRun-last_of (suc n) xs h.1 ∙ omega arith)

-- What lies after the index `a` in the entries of a log from `lo` to `hi`.
pub rest_of :
    (log : List Entry) (lo hi a : ℕ)
    → lo ≤ a
    → drop (a - lo) (take (hi - lo) (drop lo log)) ≡ take (hi - a) (drop a log)
rest_of log lo hi a h =
    let size : (hi - lo) - (a - lo) ≡ hi - a = omega arith in
    let from : lo + (a - lo) ≡ a = omega arith in
    drop-take (a - lo) (hi - lo) (drop lo log)
    ∙ ap₂ take size (drop-drop (a - lo) lo log ∙ ap (λ i. drop i log) from)

-- The entries of a log after an index.
pub IsRun-after : (a k : ℕ) (log : List Entry) → IsRun 0 log → IsRun a (take k (drop a log))
IsRun-after a k log run =
    let at : 0 + a ≡ a = omega arith in
    IsRun-take a k (drop a log) (subst (λ i. IsRun i (drop a log)) at (IsRun-drop 0 a log run))

-- A batch of committed entries: none, or some that follow one another in the log.
abbrev pub IsBatch : List Entry → List Entry → Type 0
IsBatch log ents =
    (ents ≡ [])
    ⊎ ((lo : ℕ) × (hi : ℕ) × (lo < hi) × (hi ≤ length log) × (ents ≡ take (hi - lo) (drop lo log)))

-- What is applied of a batch goes on where the log was left.
to_apply_next :
    (log : List Entry) (applied : ℕ) (ents : List Entry)
    → IsRun 0 log
    → length log + 1 < modulus
    → applied ≤ length log
    → IsBatch log ents
    → Yields
        (entries_to_apply applied ents)
        λ out. (k : ℕ) × (applied + k ≤ length log) × (out ≡ take k (drop applied log))
unfolding entries_to_apply
to_apply_next log applied [] run fits low batch = (0, omega (arith, low), refl)
to_apply_next log applied (x ∷ xs) run fits low (inl e) = absurd (ground (arith, e))
to_apply_next log applied (x ∷ xs) run fits low (inr (lo, hi, some_ents, high, e)) =
    let batch : IsRun lo (x ∷ xs) = subst (IsRun lo) (sym e) (IsRun-after lo (hi - lo) log run) in
    let size : length (x ∷ xs) ≤ hi - lo =
      omega (arith, ap length e, length-take (hi - lo) (drop lo log)) in
    let (reached, missing) =
      entries_to_apply_lem lo applied x xs batch (omega (arith, size)) (omega arith) in
    elim (Bool-cases (leb lo applied)) [
      | inl on_time ↦ rw (reached (ground (arith, on_time))) (
        hi - applied,
        ground (arith),
        ap (drop (applied - lo)) e ∙ rest_of log lo hi applied (ground (arith, on_time)),
      )
      | inr late ↦ rw (missing (ground (arith, late))) tt
    ]

-- The node has published the data of the log up to the index that it has applied.
abbrev pub Goes : List Entry → RaftNode → RaftNode × List Text × Bool → Type 0
Goes log r s =
    s.2 ≡ true
    → (r.applied_index ≤ s.0.applied_index)
      × (s.0.applied_index ≤ length log)
      × (contents (take r.applied_index log) ++ s.1 ≡ contents (take s.0.applied_index log))

pub serve_committed-Goes :
    (unmarshal : Option Text → ConfChange) (log : List Entry) (r : RaftNode) (taken : Bool)
    (ents : List Entry)
    → IsRun 0 log
    → length log + 1 < modulus
    → r.applied_index ≤ length log
    → IsBatch log ents
    → Yields (serve_committed unmarshal r taken ents) (Goes log r)
unfolding serve_committed
serve_committed-Goes unmarshal log r taken ents run fits low batch =
    let a = r.applied_index in
    Yields-bind (entries_to_apply a ents) _ _ _ (to_apply_next log a ents run fits low batch)
      λ es (k, high, e).
        Yields-map (publish_entries unmarshal r taken es) _ _
          (publish_entries-contents unmarshal r taken es)
          λ s h all.
            let (same, last) = h all in
            let size : length (take k (drop a log)) ≡ k =
              omega (arith, length-take k (drop a log), length-drop a log, high) in
            let now : s.0.applied_index ≡ a + k =
              last
              ∙ ap (last_of a) e
              ∙ IsRun-last_of a _ (IsRun-after a k log run)
              ∙ ap (λ n. a + n) size in
            (
              omega (arith, now),
              omega (arith, now, high),
              ap (λ x. contents (take a log) ++ x) (same ∙ ap contents e)
                  ∙ sym (contents-append (take a log) (take k (drop a log)))
                  ∙ ap contents (take-take-drop a k log ∙ ap (λ n. take n log) (sym now)),
            )

serve_channels-Goes :
    (unmarshal : Option Text → ConfChange) (log : List Entry) (r : RaftNode)
    (batches : List (Bool × List Entry))
    → IsRun 0 log
    → length log + 1 < modulus
    → r.applied_index ≤ length log
    → All (λ b. IsBatch log b.1) batches
    → Yields (serve_channels unmarshal r batches) (Goes log r)
unfolding serve_channels
serve_channels-Goes unmarshal log r [] run fits low all =
    λ k. (omega arith, low, append-nil (contents (take r.applied_index log)))
serve_channels-Goes unmarshal log r ((taken, ents) ∷ more) run fits low all =
    Yields-bind (serve_committed unmarshal r taken ents) _ _ _
      (serve_committed-Goes unmarshal log r taken ents run fits low all.0)
      λ s h. elim (Bool-cases s.2) [
        | inr gone ↦ rw gone (λ k. absurd (ground (arith, k, gone)))
        | inl stays ↦
            let (up, high, told) = h stays in
            rw stays (
              Yields-bind (serve_channels unmarshal s.0 more) _ _ _
                (serve_channels-Goes unmarshal log s.0 more run fits high all.1)
                λ t g k.
                  let (up', high', told') = g k in
                  (
                    omega (arith, up, up'),
                    high',
                    sym (append_assoc (contents (take r.applied_index log)) s.1 t.1)
                        ∙ ap (λ x. x ++ t.1) told
                        ∙ told',
                  ))
      ]

-- The batches of committed entries are runs of one log, whose indices start at 1 and stay below the last
-- word. However they overlap, and whatever changes of the configuration they hold, if the node goes on, the
-- data that it publishes continues the data of the log up to its applied index, each entry once and in order,
-- to the data of the log up to its new applied index, which has not fallen.
pub serve_channels-replays :
    (unmarshal : Option Text → ConfChange) (log : List Entry) (r r' : RaftNode)
    (batches : List (Bool × List Entry)) (published : List Text)
    → IsRun 0 log
    → length log + 1 < modulus
    → r.applied_index ≤ length log
    → All (λ b. IsBatch log b.1) batches
    → serve_channels unmarshal r batches ≡ ok (r', published, true)
    → (r.applied_index ≤ r'.applied_index)
      × (r'.applied_index ≤ length log)
      × (contents (take r.applied_index log) ++ published ≡ contents (take r'.applied_index log))
serve_channels-replays unmarshal log r r' batches published run fits low all e =
    subst (λ m. Yields m (Goes log r)) e
      (serve_channels-Goes unmarshal log r batches run fits low all) refl
