-- ===== src/Raft/Campaign.antt =====
-- raft/core/raft.go: elections, from `hup` to the count of the votes.
use yyckv.Base.{
  ℕ, Bool, false, not, Option, none, some, List, [], ◌∷◌, lookup, ◌==◌, if◌then◌else◌, Fallible, ok,
  ◌>>=◌,
}
use yyckv.Base.Word.{add64}
use yyckv.Pb.{MessageType, message, msg_vote, msg_pre_vote}
use yyckv.Log
use yyckv.Quorum.Majority.{VoteResult}
use yyckv.Tracker.{voter_nodes, record_vote, tally_votes}
use yyckv.Tracker.Progress.{Progress}
use yyckv.Util.{vote_resp_msg_type}
use yyckv.Raft.{Raft, is_leader}
use yyckv.Raft.Send.{send}
use yyckv.Raft.Become.{become_candidate, become_pre_candidate}

pub data CampaignType : Type 0 where
  campaign_pre_election campaign_election campaign_transfer : CampaignType

-- The text "CampaignTransfer".
abbrev transfer_context : List ℕ
transfer_context =
    67 ∷ 97 ∷ 109 ∷ 112 ∷ 97 ∷ 105 ∷ 103 ∷ 110 ∷ 84 ∷ 114 ∷ 97 ∷ 110 ∷ 115 ∷ 102 ∷ 101 ∷ 114 ∷ []

abbrev pub campaign_context : CampaignType → Option (List ℕ)
campaign_context campaign_transfer = some transfer_context
campaign_context _ = none

abbrev pub can_lead : Option Progress → Bool
can_lead none = false
can_lead (some pr) = not pr.is_learner

unfoldable pub promotable : Raft → Bool
promotable r = can_lead (lookup r.trk.progress r.id)

-- The request to one voter, or the vote for itself.
unfoldable pub request_vote : CampaignType → MessageType → ℕ → Raft → ℕ → Fallible Raft
request_vote t typ term r id =
    if id == r.id
    then (vote_resp_msg_type typ >>= λ resp. send r (record (message resp id) { term = term }))
    else (Log.last_term r.raft_log >>= λ last_term. Log.last_index r.raft_log >>= λ last.
        send r (record (message typ id) {
          term = term;
          index = last;
          log_term = last_term;
          context = campaign_context t;
        }))

unfoldable pub request_votes : CampaignType → MessageType → ℕ → List ℕ → Raft → Fallible Raft
unfolding request_vote
request_votes t typ term [] r = ok r
request_votes t typ term (id ∷ ids) r =
    request_vote t typ term r id >>= λ r'. request_votes t typ term ids r'

-- The voters in ascending order are those of `VoterNodes`.
unfoldable pub campaign : Raft → CampaignType → Fallible Raft
campaign r campaign_pre_election = become_pre_candidate r >>= λ r'.
    request_votes campaign_pre_election msg_pre_vote (add64 r'.term 1) (voter_nodes r'.trk) r'
campaign r t = become_candidate r >>= λ r'. request_votes t msg_vote r'.term (voter_nodes r'.trk) r'

unfoldable pub hup : Raft → CampaignType → Fallible Raft
hup r t = if is_leader r.state then ok r else if promotable r then campaign r t else ok r

unfoldable pub poll : Raft → ℕ → Bool → Raft × (ℕ × ℕ × VoteResult)
poll r id v = let trk = record_vote r.trk id v in (record r { trk = trk }, tally_votes trk)
