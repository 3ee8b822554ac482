-- ===== src/Base/Words/Split.antt =====
-- Words that are joined by blanks are split again.
use Prim.Native.Nat.{ℕ, ◌<◌}
use mathlib.Core.Bool.{Bool, true, false}
use mathlib.Core.List.{append-nil, List, [], ◌∷◌, ◌++◌, reverse, reverse-reverse}
use mathlib.Core.Logic.{◌≢◌}
use mathlib.Core.Path.{◌≡◌, refl, ap, sym, ◌∙◌}
use native.Mathlib.Omega.{arith}
use yyckv.Base.Tests.{◌==◌}
use yyckv.Base.Lists.{All}
use yyckv.Base.Strings.{Text}
use yyckv.Base.Words.{space_width, trim_front, trim_space, split, join_more}

space_width-plain :
    (backwards : Bool) (c : ℕ) (s : Text) → 32 < c → c < 128 → space_width backwards (c ∷ s) ≡ 0
space_width-plain true c [] h k = ground arith
space_width-plain false c [] h k = ground arith
space_width-plain true c (b ∷ []) h k = ground arith
space_width-plain false c (b ∷ []) h k = ground arith
space_width-plain true c (b ∷ d ∷ s) h k = ground arith
space_width-plain false c (b ∷ d ∷ s) h k = ground arith

trim_front-plain :
    (backwards : Bool) (c : ℕ) (s : Text)
    → 32 < c
    → c < 128
    → trim_front backwards 0 (c ∷ s) ≡ c ∷ s
unfolding trim_front
trim_front-plain backwards c s h k = rw (space_width-plain backwards c s h k) refl

-- The text begins and ends with a plain byte.
pub trim_space-plain :
    (c d : ℕ) (s t : Text)
    → (32 < c) × (c < 128)
    → (32 < d) × (d < 128)
    → reverse (c ∷ s) ≡ d ∷ t
    → trim_space (c ∷ s) ≡ c ∷ s
unfolding trim_space
trim_space-plain c d s t first last e =
    ap (λ x. reverse (trim_front true 0 (reverse x))) (trim_front-plain false c s first.0 first.1)
    ∙ ap (λ x. reverse (trim_front true 0 x)) e
    ∙ ap reverse (trim_front-plain true d t last.0 last.1 ∙ sym e)
    ∙ reverse-reverse (c ∷ s)

abbrev pub Lacks : ℕ → Text → Type 0
Lacks sep = All λ c. c ≢ sep

pub split-word : (sep : ℕ) (w : Text) → Lacks sep w → split sep w ≡ (w, [])
unfolding split
split-word sep [] h = refl
split-word sep (c ∷ w) h =
    let other : (c == sep) ≡ false = ground (arith, h.0) in rw (other, split-word sep w h.1) refl

pub split-joined :
    (sep : ℕ) (w s : Text)
    → Lacks sep w
    → split sep (w ++ (sep ∷ s)) ≡ (w, (split sep s).0 ∷ (split sep s).1)
unfolding split
split-joined sep [] s h = let same : (sep == sep) ≡ true = ground arith in rw same refl
split-joined sep (c ∷ w) s h =
    let other : (c == sep) ≡ false = ground (arith, h.0) in
    rw (other, split-joined sep w s h.1) refl

pub split-join_more :
    (sep : ℕ) (w : Text) (ws : List Text)
    → Lacks sep w
    → All (Lacks sep) ws
    → split sep (w ++ join_more sep ws) ≡ (w, ws)
split-join_more sep w [] h k = ap (split sep) (append-nil w) ∙ split-word sep w h
split-join_more sep w (v ∷ ws) h k =
    split-joined sep w (v ++ join_more sep ws) h
    ∙ ap (λ p. (w, p.0 ∷ p.1)) (split-join_more sep v ws k.0 k.1)
