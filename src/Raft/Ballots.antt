-- ===== src/Raft/Ballots.antt =====
-- raft/core/raft.go: which node cast its vote for which candidate in which term, over the whole run of a
-- cluster. A node keeps only its last vote; `Ballots` keeps all of them, as a ghost.
use yyckv.Base.{
  subst, ℕ, ◌<◌, ◌≡◌, ◌≢◌, refl, ap, sym, ◌∙◌, true, Option, none, some, List, [], ◌∷◌, lookup,
  arith, if◌then◌else◌, ◌==◌, ◌&&◌, All, Bool-cases, inl, inr,
}
use mathlib.Core.Path.{subst₂}
use yyckv.Pb.{Message}
use yyckv.Quorum.Joint.{JointConfig}
use yyckv.Quorum.Joint
use yyckv.Quorum.Majority.{Votes, vote_won}
use yyckv.Raft.{state_candidate, state_leader}
use yyckv.Raft.Face.{Face, is_grant}
pub mod Moves
pub mod Election
pub mod Count
pub mod Handle

-- Node, term, candidate.
abbrev pub Ballots : Type 0
Ballots = ℕ → ℕ → Option ℕ

abbrev pub cast : Ballots → ℕ → ℕ → ℕ → Ballots
cast b n t c = λ k u. if k == n && u == t then some c else b k u

-- The grant tells of a ballot.
abbrev pub IsCast : Ballots → Message → Type 0
IsCast b g = (is_grant g ≡ true) × (b g.from g.term ≡ some g.to) × (g.term ≢ 0)

-- The votes that are granted are ballots for `c` in the term `t`.
abbrev pub Supports : Ballots → ℕ → ℕ → Votes → Type 0
Supports b t c v = (k : ℕ) → lookup v k ≡ some true → b k t ≡ some c

abbrev pub Elected : Ballots → JointConfig → ℕ → ℕ → Type 0
Elected b voters t c = (v : Votes) × (Joint.vote_result voters v ≡ vote_won) × Supports b t c v

-- The face of a node tells the truth about the ballots.
pub record Honest (b : Ballots) (f : Face) : Type 0 where
  pub some_id : 0 < f.id
  pub own : b f.id f.term ≡ (if f.vote == 0 then none else some f.vote)
  pub ahead : (t : ℕ) → f.term < t → b f.id t ≡ none
  pub granted : All (IsCast b) f.grants
  pub sealed : f.released ≡ []
  pub counted : f.state ≡ state_candidate → Supports b f.term f.id f.votes
  pub elected : f.state ≡ state_leader → Elected b f.voters f.term f.id

-- No ballot of `b` is lost in `b'`, and only node `n` has cast more.
abbrev pub Later : ℕ → Ballots → Ballots → Type 0
Later n b b' =
    ((k t c : ℕ) → b k t ≡ some c → b' k t ≡ some c) × ((k t : ℕ) → k ≢ n → b' k t ≡ b k t)

pub Later-refl : (n : ℕ) (b : Ballots) → Later n b b
Later-refl n b = (λ k t c h. h, λ k t h. refl)

pub Later-trans : (n : ℕ) (a b c : Ballots) → Later n a b → Later n b c → Later n a c
Later-trans n a b c f g = (λ k t x h. g.0 k t x (f.0 k t x h), λ k t h. g.1 k t h ∙ f.1 k t h)

pub IsCast-Later :
    (n : ℕ) (b b' : Ballots)
    → Later n b b'
    → (gs : List Message) → All (IsCast b) gs
    → All (IsCast b') gs
IsCast-Later n b b' l [] h = tt
IsCast-Later n b b' l (g ∷ gs) h =
    ((h.0.0, l.0 g.from g.term g.to h.0.1, h.0.2), IsCast-Later n b b' l gs h.1)

pub Elected-Later :
    (n : ℕ) (b b' : Ballots) (voters : JointConfig) (t c : ℕ)
    → Later n b b'
    → Elected b voters t c
    → Elected b' voters t c
Elected-Later n b b' voters t c l (v, won, votes) = (v, won, λ k h. l.0 k t c (votes k h))

-- A node stays honest while another one votes.
pub Honest-Later :
    (n : ℕ) (b b' : Ballots) (f : Face) → Later n b b' → f.id ≢ n → Honest b f → Honest b' f
Honest-Later n b b' f l other h = record {
  some_id = h.some_id;
  own = l.1 f.id f.term other ∙ h.own;
  ahead = λ t k. l.1 f.id t other ∙ h.ahead t k;
  granted = IsCast-Later n b b' l f.grants h.granted;
  sealed = h.sealed;
  counted = λ s k v. l.0 k f.term f.id (h.counted s k v);
  elected = λ s. Elected-Later n b b' f.voters f.term f.id l (h.elected s);
}

-- The node goes from the face `f` to the face `g`, and casts ballots on the way.
abbrev pub Grows : Ballots → Face → Face → Type 0
Grows b f g =
    (g.id ≡ f.id) × (g.voters ≡ f.voters) × ((b' : Ballots) × Later f.id b b' × Honest b' g)

pub here : (b : Ballots) (f : Face) → Honest b f → Grows b f f
here b f h = (refl, refl, (b, Later-refl f.id b, h))

-- One change after the other.
pub Grows-trans :
    (b c : Ballots) (f g k : Face)
    → g.id ≡ f.id
    → g.voters ≡ f.voters
    → Later f.id b c
    → Grows c g k
    → Grows b f k
Grows-trans b c f g k i v l (j, w, (d, m, e)) =
    (j ∙ i, w ∙ v, (d, Later-trans f.id b c d l (subst (λ n. Later n c d) i m), e))

pub cast-Later :
    (b : Ballots) (n t c : ℕ) → ((x : ℕ) → b n t ≡ some x → x ≡ c) → Later n b (cast b n t c)
cast-Later b n t c once = (
  λ k u x h. elim (Bool-cases (k == n && u == t)) [
    | inr other ↦ rw other h
    | inl same ↦
        let at : k ≡ n = ground arith in
        let when : u ≡ t = ground arith in
        rw same (ap some (sym (once x (subst₂ (λ i j. b i j ≡ some x) at when h))))
  ],
  λ k u other. ground arith,
)
