-- ===== src/Raft/Step.antt =====
-- raft/core/raft.go: `Step`, the handling of one message.
use yyckv.Base.{
  ℕ, Bool, true, false, not, Option, none, some, ltb, ◌==◌, ◌&&◌, ◌||◌, if◌then◌else◌, Fallible, ok,
  ◌>>=◌,
}
use yyckv.Pb.{
  Message, MessageType, message, msg_hup, msg_app, msg_app_resp, msg_heartbeat, msg_snap, msg_vote,
  msg_pre_vote, msg_pre_vote_resp, msg_storage_append_resp, msg_storage_apply_resp,
}
use yyckv.Log
use yyckv.Util.{vote_resp_msg_type}
use yyckv.Raft.{Raft, RaftError, StepFunc, step_follower, step_candidate, step_leader}
use yyckv.Raft.Send.{send}
use yyckv.Raft.Become.{become_follower}
use yyckv.Raft.Campaign.{hup, campaign_pre_election, campaign_election}
use yyckv.Raft.Follower.{fine, follower_on}
use yyckv.Raft.Candidate.{candidate_on}
use yyckv.Raft.Leader.{leader_on}
pub mod Vote
pub mod Grant
pub mod Terms
pub mod Handlers
pub mod Roles
pub mod Faces

abbrev pub is_pre_vote : MessageType → Bool
is_pre_vote msg_pre_vote = true
is_pre_vote _ = false

abbrev pub is_vote : MessageType → Bool
is_vote msg_vote = true
is_vote _ = false

-- The messages that only a leader sends, for a higher and for a lower term.
abbrev pub from_new_leader : MessageType → Bool
from_new_leader msg_app = true
from_new_leader msg_heartbeat = true
from_new_leader msg_snap = true
from_new_leader _ = false

abbrev pub from_old_leader : MessageType → Bool
from_old_leader msg_app = true
from_old_leader msg_heartbeat = true
from_old_leader _ = false

abbrev pub is_granted_pre_vote : MessageType → Bool → Bool
is_granted_pre_vote msg_pre_vote_resp false = true
is_granted_pre_vote _ _ = false

-- A message of a higher term.
unfoldable pub raise_term : Raft → Message → Fallible Raft
raise_term r m =
    if is_pre_vote m.typ || is_granted_pre_vote m.typ m.reject
    then ok r
    else become_follower r m.term (if from_new_leader m.typ then m.from else 0)

-- A message of a lower term. The log line of a rejected pre-vote reads the last term.
unfoldable pub on_lower_term : Raft → Message → Fallible Raft
on_lower_term r m =
    if (r.check_quorum || r.pre_vote) && from_old_leader m.typ
    then send r (message msg_app_resp m.from)
    else if is_pre_vote m.typ
    then (Log.last_term r.raft_log >>= λ _.
        send r (record (message msg_pre_vote_resp m.from) { term = r.term; reject = true }))
    else ok r

unfoldable pub can_vote : Raft → Message → Bool
can_vote r m =
    r.vote == m.from || (r.vote == 0 && r.lead == 0) || (is_pre_vote m.typ && ltb r.term m.term)

unfoldable pub cast_vote : Raft → Message → Fallible Raft
cast_vote r m = do
  t ← Log.last_term r.raft_log
  resp ← vote_resp_msg_type m.typ
  r' ← send r (record (message resp m.from) { term = m.term })
  ok (if is_vote m.typ then record r' { election_elapsed = 0; vote = m.from } else r')

unfoldable pub refuse_vote : Raft → Message → Fallible Raft
refuse_vote r m = do
  t ← Log.last_term r.raft_log
  resp ← vote_resp_msg_type m.typ
  send r (record (message resp m.from) { term = r.term; reject = true })

-- The second half of `&&` is read only if the node can vote.
unfoldable pub on_vote_request : Raft → Message → Fallible Raft
unfolding can_vote cast_vote refuse_vote
on_vote_request r m =
    if can_vote r m
    then (Log.is_up_to_date r.raft_log m.index m.log_term >>= λ up_to_date.
        if up_to_date then cast_vote r m else refuse_vote r m)
    else refuse_vote r m

unfoldable pub call_step : StepFunc → Raft → Message → Fallible (Raft × Option RaftError)
call_step step_follower r m = follower_on m.typ r m
call_step step_candidate r m = candidate_on m.typ r m
call_step step_leader r m = leader_on m.typ r m

-- The second switch of `Step`.
unfoldable pub dispatch : MessageType → Raft → Message → Fallible (Raft × Option RaftError)
unfolding on_vote_request call_step
dispatch msg_hup r m =
    hup r (if r.pre_vote then campaign_pre_election else campaign_election) >>= fine
dispatch msg_storage_append_resp r m = fine r
dispatch msg_storage_apply_resp r m = fine r
dispatch msg_vote r m = on_vote_request r m >>= fine
dispatch msg_pre_vote r m = on_vote_request r m >>= fine
dispatch _ r m = call_step r.step r m

unfoldable pub step : Raft → Message → Fallible (Raft × Option RaftError)
unfolding raise_term on_lower_term dispatch
step r m =
    if m.term == 0
    then dispatch m.typ r m
    else if ltb r.term m.term
    then (raise_term r m >>= λ r'. dispatch m.typ r' m)
    else if ltb m.term r.term
    then (on_lower_term r m >>= fine)
    else dispatch m.typ r m
