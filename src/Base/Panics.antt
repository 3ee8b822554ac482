-- ===== src/Base/Panics.antt =====
-- Go code that may panic: a value, or the panic that ends the goroutine.
use mathlib.Core.Path.{◌≡◌, refl}
use mathlib.Core.Bool.{Bool, true, false, ◌&&◌}
use mathlib.Core.List.{List}
use mathlib.Core.Option.{Option, none, some}
use Prim.Native.Nat.{ℕ, ◌-◌}
use yyckv.Base.Tests.{leb, if◌then◌else◌}
use yyckv.Base.Lists.{length, get_elem?, take, drop}

-- `log_panic` is a call of `logger.Panicf`, `fatal` one of `log.Fatal`, which ends the process,
-- `out_of_range`, `nil_deref` and `nil_map` (an assignment to an entry of a nil map) are faults of the Go
-- runtime, `raised` is a call of `panic`, `unimplemented` is the method body `panic("implement me")`, and
-- `out_of_fuel` marks a loop that met the bound on its rounds.
pub data Fault : Type 0 where
  log_panic out_of_range nil_deref nil_map raised fatal unimplemented out_of_fuel : Fault

pub data Fallible {ℓ} (A : Type ℓ) : Type ℓ where
  ok : A → Fallible A
  panic : Fault → Fallible A

infixl 5 ◌>>=◌ ◌>>◌
abbrev pub ◌>>=◌ {ℓ κ} : {A : Type ℓ} {B : Type κ} → Fallible A → (A → Fallible B) → Fallible B
ok a >>= f = f a
panic e >>= f = panic e

abbrev pub ◌>>◌ {ℓ} : {B : Type ℓ} → Fallible (Unit {0}) → Fallible B → Fallible B
m >> k = m >>= λ _. k

-- The call returns, and its value satisfies `P`.
abbrev pub Returns {ℓ} : {A : Type ℓ} → Fallible A → (A → Type 0) → Type 0
Returns (ok a) P = P a
Returns (panic e) P = ⊥

-- Either the call panics, or its value satisfies `P`.
abbrev pub Yields {ℓ} : {A : Type ℓ} → Fallible A → (A → Type 0) → Type 0
Yields (ok a) P = P a
Yields (panic e) P = Unit {0}

pub Returns-bind {ℓ κ} :
    {A : Type ℓ} {B : Type κ} (m : Fallible A) (f : A → Fallible B) (P : A → Type 0)
    (Q : B → Type 0)
    → Returns m P
    → ((a : A) → P a → Returns (f a) Q)
    → Returns (m >>= f) Q
Returns-bind (ok a) f P Q h k = k a h
Returns-bind (panic e) f P Q h k = absurd h

pub Yields-bind {ℓ κ} :
    {A : Type ℓ} {B : Type κ} (m : Fallible A) (f : A → Fallible B) (P : A → Type 0)
    (Q : B → Type 0)
    → Yields m P
    → ((a : A) → P a → Yields (f a) Q)
    → Yields (m >>= f) Q
Yields-bind (ok a) f P Q h k = k a h
Yields-bind (panic e) f P Q h k = tt

pub Returns-map {ℓ} :
    {A : Type ℓ} (m : Fallible A) (P Q : A → Type 0)
    → Returns m P
    → ((a : A) → P a → Q a)
    → Returns m Q
Returns-map (ok a) P Q h k = k a h
Returns-map (panic e) P Q h k = h

pub Yields-map {ℓ} :
    {A : Type ℓ} (m : Fallible A) (P Q : A → Type 0)
    → Yields m P
    → ((a : A) → P a → Q a)
    → Yields m Q
Yields-map (ok a) P Q h k = k a h
Yields-map (panic e) P Q h k = h

pub Yields-if {ℓ} :
    {A : Type ℓ} (b : Bool) (m n : Fallible A) (P : A → Type 0)
    → Yields m P
    → Yields n P
    → Yields (if b then m else n) P
Yields-if true m n P h k = h
Yields-if false m n P h k = k

-- The same, where the branches need the value of the test.
pub Yields-test {ℓ} :
    {A : Type ℓ} (b : Bool) (m n : Fallible A) (P : A → Type 0)
    → (b ≡ true → Yields m P)
    → (b ≡ false → Yields n P)
    → Yields (if b then m else n) P
Yields-test true m n P h k = h refl
Yields-test false m n P h k = k refl

pub Yields-both {ℓ} :
    {A : Type ℓ} (m : Fallible A) (P Q : A → Type 0)
    → Yields m P
    → Yields m Q
    → Yields m λ a. P a × Q a
Yields-both (ok a) P Q h k = (h, k)
Yields-both (panic e) P Q h k = tt

-- `xs[i]`.
abbrev pub index {ℓ} : {A : Type ℓ} → List A → ℕ → Fallible A
index xs i = elim (get_elem? xs i) [ none ↦ panic out_of_range | some a ↦ ok a ]

-- `xs[lo:hi]`, for a slice whose capacity is its length.
abbrev pub sub_slice {ℓ} : {A : Type ℓ} → List A → ℕ → ℕ → Fallible (List A)
sub_slice xs lo hi =
    if leb lo hi && leb hi (length xs) then ok (take (hi - lo) (drop lo xs)) else panic out_of_range

-- `*p`.
abbrev pub deref {ℓ} : {A : Type ℓ} → Option A → Fallible A
deref none = panic nil_deref
deref (some a) = ok a

-- To go on with the value.
pub Returns-value {ℓ} :
    {A : Type ℓ} (m : Fallible A) (P : A → Type 0) → Returns m P → (a : A) × (m ≡ ok a) × P a
Returns-value (ok a) P h = (a, refl, h)
Returns-value (panic e) P h = absurd h

pub Yields-every {ℓ} :
    {A : Type ℓ} {I : Type 0} (m : Fallible A) (P : I → A → Type 0)
    → ((i : I) → Yields m (P i))
    → Yields m λ a. (i : I) → P i a
Yields-every (ok a) P h = h
Yields-every (panic e) P h = tt
