-- ===== src/Tracker.antt =====
-- raft/core/tracker: what a leader knows of each node, the configuration, and the votes. A map from
-- identifiers to pointers is an association list, and the code shares no pointer between two keys.
use mathlib.Core.List.{reverse}
use yyckv.Base.{
  ℕ, suc, ◌+◌, Bool, true, false, Option, none, some, List, [], ◌∷◌, lookup, insert, keys, ◌==◌,
  if◌then◌else◌,
}
use yyckv.Pb.{ConfState}
use yyckv.Quorum.IdSet.{IdSet}
use yyckv.Quorum.Sort.{insertion_sort, slice}
use yyckv.Quorum.Joint.{JointConfig, ids}
use yyckv.Quorum.Joint
use yyckv.Quorum.Majority.{VoteResult, Votes}
pub mod Progress
pub mod Ballot

pub record Config : Type 0 where
  pub voters : JointConfig
  pub auto_leave : Bool
  pub learners : IdSet
  pub learners_next : IdSet

-- `Clone` leaves `AutoLeave` out.
unfoldable pub clone : Config → Config
clone c = record c { auto_leave = false }

abbrev pub ProgressMap : Type 0
ProgressMap = List (ℕ × Progress.Progress)

pub record ProgressTracker : Type 0 where
  pub config : Config
  pub progress : ProgressMap
  pub votes : Votes
  pub max_inflight : ℕ
  pub max_inflight_bytes : ℕ

unfoldable pub make_progress_tracker : ℕ → ℕ → ProgressTracker
make_progress_tracker max_inflight max_bytes = record {
  config = record {
    voters = record { incoming = some []; outgoing = none };
    auto_leave = false;
    learners = none;
    learners_next = none;
  };
  progress = [];
  votes = [];
  max_inflight = max_inflight;
  max_inflight_bytes = max_bytes;
}

unfoldable pub conf_state : ProgressTracker → ConfState
conf_state p = record {
  voters = slice p.config.voters.incoming;
  learners = slice p.config.learners;
  voters_outgoing = slice p.config.voters.outgoing;
  learners_next = slice p.config.learners_next;
  auto_leave = p.config.auto_leave;
}

-- The order in which `Visit` calls its closure.
unfoldable pub visit_order : ProgressTracker → List ℕ
visit_order p = insertion_sort (keys p.progress)

unfoldable pub voter_nodes : ProgressTracker → List ℕ
voter_nodes p = insertion_sort (ids p.config.voters)

unfoldable pub committed : ProgressTracker → ℕ
committed p = 0

unfoldable pub reset_votes : ProgressTracker → ProgressTracker
reset_votes p = record p { votes = [] }

abbrev pub add_vote : Option Bool → Votes → ℕ → Bool → Votes
add_vote none votes id v = insert votes id v
add_vote (some _) votes id v = votes

unfoldable pub record_vote : ProgressTracker → ℕ → Bool → ProgressTracker
record_vote p id v = record p { votes = add_vote (lookup p.votes id) p.votes id v }

abbrev granted_by : Bool → Option Bool → ℕ
granted_by false (some true) = 1
granted_by _ _ = 0

abbrev rejected_by : Bool → Option Bool → ℕ
rejected_by false (some false) = 1
rejected_by _ _ = 0

-- The loop of `TallyVotes` over the progress map.
unfoldable pub tally : ProgressMap → Votes → ℕ → ℕ → ℕ × ℕ
tally [] votes granted rejected = (granted, rejected)
tally ((id, pr) ∷ m) votes granted rejected =
    tally m votes (granted + granted_by pr.is_learner (lookup votes id))
      (rejected + rejected_by pr.is_learner (lookup votes id))

unfoldable pub tally_votes : ProgressTracker → ℕ × ℕ × VoteResult
unfolding tally
tally_votes p =
    let counted = tally p.progress p.votes 0 0 in
    (counted.0, counted.1, Joint.vote_result p.config.voters p.votes)
