-- ===== src/Quorum/Joint.antt =====
-- raft/core/quorum/joint.go: joint configurations, which decide by two majorities.
use yyckv.Base.{ℕ, List, [], ◌∷◌, ◌==◌, ◌||◌, if◌then◌else◌}
use yyckv.Quorum.IdSet.{IdSet, members, add_id}
use yyckv.Quorum.Majority.{VoteResult, vote_pending, vote_lost, vote_result_value, Votes}
use yyckv.Quorum.Majority

-- `JointConfig` is an array of two: `incoming` and `outgoing` are its elements 0 and 1.
pub record JointConfig : Type 0 where
  pub incoming : IdSet
  pub outgoing : IdSet

abbrev add_ids : List ℕ → List ℕ → List ℕ
add_ids ids [] = ids
add_ids ids (x ∷ xs) = add_ids (add_id ids x) xs

unfoldable pub ids : JointConfig → List ℕ
ids c = add_ids (add_ids [] (members c.incoming)) (members c.outgoing)

unfoldable pub combine : VoteResult → VoteResult → VoteResult
combine r₁ r₂ =
    if vote_result_value r₁ == vote_result_value r₂
    then r₁
    else if vote_result_value r₁ == 2 || vote_result_value r₂ == 2
    then vote_lost
    else vote_pending

unfoldable pub vote_result : JointConfig → Votes → VoteResult
unfolding combine
vote_result c votes =
    combine (Majority.vote_result c.incoming votes) (Majority.vote_result c.outgoing votes)
