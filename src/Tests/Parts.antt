-- ===== src/Tests/Parts.antt =====
-- The theorems on sizes, votes, sorting and configuration changes at concrete inputs.
use mathlib.Core.List.{Pairwise, Perm}
use yyckv.Base.{
  ℕ, ◌≤◌, ◌≡◌, ◌≢◌, inl, refl, true, false, none, some, List, [], ◌∷◌, lookup, Returns, arith,
}
use yyckv.Pb.{Entry, ConfChangeSingle, add_node}
use yyckv.Util.{limit_size}
use yyckv.Util.Limit.{limit_size_lem, IsLongest}
use yyckv.Pb.{entry_size}
use yyckv.Quorum.IdSet.{IdSet, has}
use yyckv.Quorum.Majority.{Votes, vote_result, vote_pending}
use yyckv.Quorum.Joint.{JointConfig}
use yyckv.Quorum.Joint
use yyckv.Quorum.Intersect.{IsVoter, majority-intersect, joint-intersect}
use yyckv.Quorum.Sort.{insertion_sort}
use yyckv.Quorum.Sort.Order.{insertion_sort_lem}
use yyckv.Tracker.{record_vote}
use yyckv.Tracker.Ballot.{Keeps, record_vote-final}
use yyckv.ConfChange.{Changer, simple}
use yyckv.ConfChange.Simple.{IsSimple, simple-IsSimple}
use yyckv.Tests.Data.{entry, tracker}

limit_size_lem_example :
    (limit_size [] 10 ≡ [])
    × (kept : List Entry) × (limit_size (entry 1 1 ∷ entry 2 1 ∷ entry 3 1 ∷ []) 10
        ≡ entry 1 1 ∷ kept)
    × IsLongest (entry_size (entry 1 1)) 10 kept (entry 2 1 ∷ entry 3 1 ∷ [])
limit_size_lem_example = limit_size_lem (entry 1 1) (entry 2 1 ∷ entry 3 1 ∷ []) 10

abbrev voters : IdSet
voters = some (1 ∷ 2 ∷ 3 ∷ [])

abbrev first_two : Votes
first_two = (1, true) ∷ (2, true) ∷ (3, false) ∷ []

abbrev last_two : Votes
last_two = (2, true) ∷ (3, true) ∷ []

majority-intersect_example :
    (id : ℕ) × (has voters id ≡ true)
    × (lookup first_two id ≡ some true)
    × (lookup last_two id ≡ some true)
unfolding vote_result lookup
majority-intersect_example = majority-intersect voters first_two last_two (omega arith) refl refl

-- The voter 4 joins, by way of a joint configuration.
abbrev before : JointConfig
before = record { incoming = voters; outgoing = none }

abbrev growing : JointConfig
growing = record { incoming = voters; outgoing = some (1 ∷ 2 ∷ 3 ∷ 4 ∷ []) }

abbrev most : Votes
most = (2, true) ∷ (3, true) ∷ (4, true) ∷ []

joint-intersect_example :
    (id : ℕ) × IsVoter before id
    × IsVoter growing id
    × (lookup first_two id ≡ some true)
    × (lookup most id ≡ some true)
unfolding Joint.vote_result vote_result lookup
joint-intersect_example =
    joint-intersect before growing first_two most (inl (refl, omega arith)) refl refl

insertion_sort_lem_example :
    Pairwise ◌≤◌ (insertion_sort (3 ∷ 1 ∷ 2 ∷ []))
    × Perm (insertion_sort (3 ∷ 1 ∷ 2 ∷ [])) (3 ∷ 1 ∷ 2 ∷ [])
insertion_sort_lem_example = insertion_sort_lem (3 ∷ 1 ∷ 2 ∷ [])

record_vote-final_example :
    Keeps tracker.votes (record_vote tracker 2 true).votes
    × (lookup tracker.votes 2 ≡ none → lookup (record_vote tracker 2 true).votes 2 ≡ some true)
    × (Joint.vote_result tracker.config.voters tracker.votes ≢ vote_pending
        → Joint.vote_result tracker.config.voters (record_vote tracker 2 true).votes
          ≡ Joint.vote_result tracker.config.voters tracker.votes)
record_vote-final_example = record_vote-final tracker 2 true

abbrev changer : Changer
changer = record { tracker = tracker; last_index = 3 }

abbrev join_four : List ConfChangeSingle
join_four = (record { typ = add_node; node_id = 4 }) ∷ []

simple-IsSimple_example : Returns (simple changer join_four) (IsSimple changer)
simple-IsSimple_example = simple-IsSimple changer join_four (1 ∷ 2 ∷ 3 ∷ []) refl
