-- ===== src/Quorum/Majority.antt =====
-- raft/core/quorum/majority.go and quorum.go: the result of a vote in one configuration.
use yyckv.Base.{
  ℕ, ◌+◌, ◌/◌, Bool, true, false, Option, none, some, List, [], ◌∷◌, length, lookup, leb, ◌==◌,
  if◌then◌else◌,
}
use yyckv.Quorum.IdSet.{IdSet, members}

pub data VoteResult : Type 0 where
  vote_pending vote_lost vote_won : VoteResult

abbrev pub vote_result_value : VoteResult → ℕ
vote_result_value vote_pending = 1
vote_result_value vote_lost = 2
vote_result_value vote_won = 3

abbrev pub Votes : Type 0
Votes = List (ℕ × Bool)

abbrev pub yes_vote : Option Bool → ℕ
yes_vote (some true) = 1
yes_vote (some false) = 0
yes_vote none = 0

abbrev pub no_vote_yet : Option Bool → ℕ
no_vote_yet (some v) = 0
no_vote_yet none = 1

-- The loop over the configuration, which counts `votedCnt` and `missing`.
unfoldable pub count_votes : List ℕ → Votes → ℕ → ℕ → ℕ × ℕ
count_votes [] votes voted missing = (voted, missing)
count_votes (id ∷ ids) votes voted missing =
    count_votes ids votes (voted + yes_vote (lookup votes id))
      (missing + no_vote_yet (lookup votes id))

abbrev pub outcome : ℕ → ℕ → ℕ → VoteResult
outcome q voted missing =
    if leb q voted then vote_won else if leb q (voted + missing) then vote_pending else vote_lost

unfoldable pub vote_result : IdSet → Votes → VoteResult
unfolding count_votes
vote_result c votes =
    let counted = count_votes (members c) votes 0 0 in
    if length (members c) == 0
    then vote_won
    else outcome (length (members c) / 2 + 1) counted.0 counted.1
