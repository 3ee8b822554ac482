-- ===== src/Quorum/Intersect.antt =====
-- raft/core/quorum: two votes that are both won share a voter who granted both.
use yyckv.Base.{
  ℕ, ◌+◌, ◌*◌, ◌≤◌, ◌<◌, ◌≡◌, true, false, Option, none, some, Bool, List, [], ◌∷◌, length, lookup,
  contains, arith, ==_refl, ◌⊎◌, inl, inr, refl, subst,
}
use yyckv.Quorum.IdSet.{IdSet, members, has}
use yyckv.Quorum.Majority.{Votes, VoteResult, vote_won, vote_result, count_votes, yes_vote}
use yyckv.Quorum.Joint.{JointConfig, combine}
use yyckv.Quorum.Joint

pub yes_count : List ℕ → Votes → ℕ
yes_count [] votes = 0
yes_count (id ∷ ids) votes = yes_vote (lookup votes id) + yes_count ids votes

pub count_votes-yes :
    (ids : List ℕ) (votes : Votes) (voted missing : ℕ)
    → (count_votes ids votes voted missing).0 ≡ voted + yes_count ids votes
unfolding count_votes yes_count
count_votes-yes [] votes voted missing = omega arith
count_votes-yes (id ∷ ids) votes voted missing =
    omega (arith, count_votes-yes ids votes (voted + yes_vote (lookup votes id)) _)

won_yes :
    (c : IdSet) (votes : Votes)
    → 0 < length (members c)
    → vote_result c votes ≡ vote_won
    → length (members c) < 2 * yes_count (members c) votes
unfolding vote_result
won_yes c votes some_voter won = ground (arith, count_votes-yes (members c) votes 0 0)

abbrev Both : Votes → Votes → List ℕ → Type 0
Both v w ids =
    (id : ℕ) × (contains ids id ≡ true) × (lookup v id ≡ some true) × (lookup w id ≡ some true)

yes_cases : (o : Option Bool) → (o ≡ some true) ⊎ (yes_vote o ≡ 0)
yes_cases none = inr refl
yes_cases (some true) = inl refl
yes_cases (some false) = inr refl

yes_at_most : (o : Option Bool) → yes_vote o ≤ 1
yes_at_most o = ground arith

Both-cons : (x : ℕ) (ids : List ℕ) (v w : Votes) → Both v w ids → Both v w (x ∷ ids)
Both-cons x ids v w (id, member, a, b) = (id, ground (arith, member), a, b)

overlap :
    (ids : List ℕ) (v w : Votes) → length ids < yes_count ids v + yes_count ids w → Both v w ids
unfolding yes_count
overlap [] v w more = absurd (omega arith)
overlap (x ∷ ids) v w more = elim (yes_cases (lookup v x)) [
  | inr no_v ↦ Both-cons x ids v w (overlap ids v w (omega (arith, yes_at_most (lookup w x))))
  | inl yes_v ↦ elim (yes_cases (lookup w x)) [
    | inr no_w ↦ Both-cons x ids v w (overlap ids v w (omega (arith, yes_at_most (lookup v x))))
    | inl yes_w ↦ (x, ground (arith, ==_refl x), yes_v, yes_w)
  ]
]

-- Two votes that one configuration, with at least one voter, both counts as won share a voter who
-- granted both.
pub majority-intersect :
    (c : IdSet) (v w : Votes)
    → 0 < length (members c)
    → vote_result c v ≡ vote_won
    → vote_result c w ≡ vote_won
    → (id : ℕ) × (has c id ≡ true) × (lookup v id ≡ some true) × (lookup w id ≡ some true)
majority-intersect c v w some_voter a b =
    overlap (members c) v w (omega (arith, won_yes c v some_voter a, won_yes c w some_voter b))

pub combine_won :
    (r₁ r₂ : VoteResult) → combine r₁ r₂ ≡ vote_won → (r₁ ≡ vote_won) × (r₂ ≡ vote_won)
unfolding combine
combine_won r₁ r₂ h = ground arith

-- The node is a voter of the configuration: of one of its halves.
abbrev pub IsVoter : JointConfig → ℕ → Type 0
IsVoter c id = (has c.incoming id ≡ true) ⊎ (has c.outgoing id ≡ true)

-- Of two joint configurations, let the incoming halves be the same and have a voter, or the outgoing
-- halves. If one counts a vote as won and the other counts another vote as won, some node is a voter of
-- both configurations and granted both votes.
pub joint-intersect :
    (c d : JointConfig) (v w : Votes)
    → (c.incoming ≡ d.incoming) × (0 < length (members c.incoming))
      ⊎ (c.outgoing ≡ d.outgoing) × (0 < length (members c.outgoing))
    → Joint.vote_result c v ≡ vote_won
    → Joint.vote_result d w ≡ vote_won
    → (id : ℕ) × IsVoter c id × IsVoter d id × (lookup v id ≡ some true) × (lookup w id ≡ some true)
unfolding Joint.vote_result
joint-intersect c d v w (inl (same, some_voter)) a b =
    let (id, member, x, y) =
      majority-intersect c.incoming v w some_voter (combine_won _ _ a).0
        (rw same (combine_won _ _ b).0) in
    (id, inl member, inl (subst (λ s. has s id ≡ true) same member), x, y)
joint-intersect c d v w (inr (same, some_voter)) a b =
    let (id, member, x, y) =
      majority-intersect c.outgoing v w some_voter (combine_won _ _ a).1
        (rw same (combine_won _ _ b).1) in
    (id, inr member, inr (subst (λ s. has s id ≡ true) same member), x, y)
