-- ===== src/Raft/Candidate.antt =====
-- raft/core/raft.go: `stepCandidate`.
use yyckv.Base.{not, Option, some, if◌then◌else◌, Fallible, ok, ◌>>=◌}
use yyckv.Pb.{
  Message, MessageType, msg_prop, msg_app, msg_heartbeat, msg_snap, msg_vote_resp,
  msg_pre_vote_resp,
}
use yyckv.Quorum.Majority.{VoteResult, vote_won, vote_lost, vote_pending}
use yyckv.Raft.{Raft, RaftError, proposal_dropped, is_pre_candidate}
use yyckv.Raft.Become.{become_follower, become_leader}
use yyckv.Raft.Replicate.{bcast_append}
use yyckv.Raft.Campaign.{campaign, campaign_election, poll}
use yyckv.Raft.Follower.{fine, handle_heartbeat}

unfoldable pub on_vote_result : VoteResult → Raft → Fallible Raft
on_vote_result vote_won r =
    if is_pre_candidate r.state
    then campaign r campaign_election
    else (become_leader r >>= bcast_append)
on_vote_result vote_lost r = become_follower r r.term 0
on_vote_result vote_pending r = ok r

unfoldable pub count_vote : Raft → Message → Fallible (Raft × Option RaftError)
unfolding on_vote_result
count_vote r m =
    let polled = poll r m.from (not m.reject) in on_vote_result polled.1.2 polled.0 >>= fine

-- The switch of `stepCandidate`. Only the response that fits the candidacy is counted.
unfoldable pub candidate_on : MessageType → Raft → Message → Fallible (Raft × Option RaftError)
unfolding count_vote
candidate_on msg_prop r m = ok (r, some proposal_dropped)
candidate_on msg_app r m = become_follower r m.term m.from >>= fine
candidate_on msg_heartbeat r m =
    become_follower r m.term m.from >>= λ r'. handle_heartbeat r' m >>= fine
candidate_on msg_snap r m = become_follower r m.term m.from >>= fine
candidate_on msg_pre_vote_resp r m = if is_pre_candidate r.state then count_vote r m else fine r
candidate_on msg_vote_resp r m = if is_pre_candidate r.state then fine r else count_vote r m
candidate_on _ r m = fine r
