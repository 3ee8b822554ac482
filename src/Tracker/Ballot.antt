-- ===== src/Tracker/Ballot.antt =====
-- raft/core/tracker/tracker.go: `RecordVote`, and the result of the votes it records.
use yyckv.Base.{
  ℕ, ◌+◌, ◌≤◌, ◌≡◌, ◌≢◌, Bool, none, some, List, [], ◌∷◌, lookup, lookup-insert, arith, inl, inr,
  Option-cases,
}
use yyckv.Quorum.IdSet.{IdSet, members}
use yyckv.Quorum.Majority.{
  Votes, VoteResult, vote_pending, vote_result, count_votes, yes_vote, no_vote_yet,
}
use yyckv.Quorum.Joint.{JointConfig, combine}
use yyckv.Quorum.Joint
use yyckv.Tracker.{ProgressTracker, record_vote, add_vote}

-- A vote that is cast stays, as `w` follows `v`.
abbrev pub Keeps : Votes → Votes → Type 0
Keeps v w = (k : ℕ) (b : Bool) → lookup v k ≡ some b → lookup w k ≡ some b

at_most :
    (v w : Votes) (k : ℕ)
    → Keeps v w
    → (yes_vote (lookup v k) ≤ yes_vote (lookup w k))
      × (yes_vote (lookup w k) + no_vote_yet (lookup w k)
          ≤ yes_vote (lookup v k) + no_vote_yet (lookup v k))
at_most v w k keeps = elim (Option-cases (lookup v k)) [
  | inl e ↦ rw e (ground arith)
  | inr (b, e) ↦ rw (e, keeps k b e) (ground arith)
]

-- The counts move towards the result only.
counts :
    (ids : List ℕ) (v w : Votes) (a b m n : ℕ)
    → Keeps v w
    → a ≤ b
    → b + n ≤ a + m
    → ((count_votes ids v a m).0 ≤ (count_votes ids w b n).0)
      × ((count_votes ids w b n).0 + (count_votes ids w b n).1
          ≤ (count_votes ids v a m).0 + (count_votes ids v a m).1)
unfolding count_votes
counts [] v w a b m n keeps h k = (h, k)
counts (id ∷ ids) v w a b m n keeps h k =
    let p = at_most v w id keeps in
    counts ids v w _ _ _ _ keeps (omega (arith, p)) (omega (arith, p))

majority-final :
    (c : IdSet) (v w : Votes)
    → Keeps v w
    → vote_result c v ≢ vote_pending
    → vote_result c w ≡ vote_result c v
unfolding vote_result
majority-final c v w keeps settled = ground (arith, counts (members c) v w 0 0 0 0 keeps)

combine_settled :
    (a b a' b' : VoteResult)
    → (a ≢ vote_pending → a' ≡ a)
    → (b ≢ vote_pending → b' ≡ b)
    → combine a b ≢ vote_pending
    → combine a' b' ≡ combine a b
unfolding combine
combine_settled a b a' b' ha hb settled = ground arith

joint-final :
    (c : JointConfig) (v w : Votes)
    → Keeps v w
    → Joint.vote_result c v ≢ vote_pending
    → Joint.vote_result c w ≡ Joint.vote_result c v
unfolding Joint.vote_result
joint-final c v w keeps settled =
    combine_settled _ _ _ _ (majority-final c.incoming v w keeps)
      (majority-final c.outgoing v w keeps) settled

add_vote-Keeps :
    (votes : Votes) (id : ℕ) (v : Bool) → Keeps votes (add_vote (lookup votes id) votes id v)
add_vote-Keeps votes id v k b h = elim (Option-cases (lookup votes id)) [
  | inl e ↦ rw e (ground (arith, lookup-insert votes id k v))
  | inr (x, e) ↦ rw e h
]

-- `RecordVote` keeps every vote that is recorded, also that of the same node, records the vote of a node
-- that has none, and never changes the result of a vote that is won or lost.
pub record_vote-final :
    (p : ProgressTracker) (id : ℕ) (v : Bool)
    → Keeps p.votes (record_vote p id v).votes
      × (lookup p.votes id ≡ none → lookup (record_vote p id v).votes id ≡ some v)
      × (Joint.vote_result p.config.voters p.votes ≢ vote_pending
          → Joint.vote_result p.config.voters (record_vote p id v).votes
            ≡ Joint.vote_result p.config.voters p.votes)
unfolding record_vote
record_vote-final p id v = (
  add_vote-Keeps p.votes id v,
  λ e. rw e (ground (arith, lookup-insert p.votes id id v)),
  joint-final p.config.voters p.votes _ (add_vote-Keeps p.votes id v),
)
