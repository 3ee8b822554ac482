-- ===== src/Http/Body.antt =====
-- raft/utils/ioutil.go, and the reading of a body by `io.ReadAll`. A read asks for as many bytes as its
-- buffer has room for, and the connection gives those that have arrived.
use yyckv.Base.{
  Text, ℕ, zero, suc, ◌≤◌, ◌<◌, min, ◌≡◌, refl, ap, Option, none, some, List, [], ◌∷◌, ◌++◌, length,
  take, drop, All, arith, length-take, length-drop,
}

pub record Read : Type 0 where
  pub asked : ℕ
  pub given : ℕ

-- How many bytes `Read` of a `limitedBufferReader` takes.
unfoldable pub limited : ℕ → Read → ℕ
limited n r = min (min r.asked n) r.given

unfoldable pub limited_read : ℕ → Read → Text → Text
unfolding limited
limited_read n r body = take (limited n r) body

-- `none` if the reads do not reach the end of the body.
unfoldable pub read_all : ℕ → List Read → Text → Option Text
unfolding limited_read
read_all n rs [] = some []
read_all n [] (c ∷ s) = none
read_all n (r ∷ rs) (c ∷ s) = elim (read_all n rs (drop (limited n r) (c ∷ s))) [
  | none ↦ none
  | some t ↦ some (limited_read n r (c ∷ s) ++ t)
]

-- There is room in the buffer, and something has arrived.
abbrev pub IsReading : Read → Type 0
IsReading r = (0 < r.asked) × (0 < r.given)

limited-read : (n : ℕ) (r : Read) → 0 < n → IsReading r → (0 < limited n r) × (limited n r ≤ n)
unfolding limited
limited-read n r h k = (omega (arith, k.0, k.1), omega arith)

take-drop : (k : ℕ) (s : Text) → take k s ++ drop k s ≡ s
take-drop zero s = refl
take-drop (suc k) [] = refl
take-drop (suc k) (c ∷ s) = ap (◌∷◌ c) (take-drop k s)

read_all-body :
    (n : ℕ) (rs : List Read) (body : Text)
    → 0 < n
    → All IsReading rs
    → length body ≤ length rs
    → read_all n rs body ≡ some body
unfolding read_all limited_read
read_all-body n rs [] h k room = refl
read_all-body n [] (c ∷ s) h k room = absurd (omega arith)
read_all-body n (r ∷ rs) (c ∷ s) h k room =
    let (some_byte, _) = limited-read n r h k.0 in
    let rest =
      read_all-body n rs (drop (limited n r) (c ∷ s)) h k.1
        (omega (arith, length-drop (limited n r) (c ∷ s))) in
    rw (read_all, rest) (ap some (take-drop (limited n r) (c ∷ s)))

-- If the limit is not 0, and each read has room for a byte and gets one, and there are as many reads as bytes,
-- then the whole body is read, however long; only a single read returns no more bytes than the limit.
pub read_all_lem :
    (n : ℕ) (rs : List Read) (body : Text)
    → 0 < n
    → All IsReading rs
    → length body ≤ length rs
    → (read_all n rs body ≡ some body) × ((r : Read) (s : Text) → length (limited_read n r s) ≤ n)
unfolding limited_read limited
read_all_lem n rs body h k room =
    (read_all-body n rs body h k room, λ r s. omega (arith, length-take (limited n r) s))
