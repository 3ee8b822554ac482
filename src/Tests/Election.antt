-- ===== src/Tests/Election.antt =====
-- A run of a cluster of three nodes, in which node 1 stands, node 2 votes for it, and it leads.
use yyckv.Base.{
  ℕ, ◌≡◌, refl, false, none, Option, [], ok, panic, Fallible, arith, lookup, insert, inl, inr,
}
use yyckv.Base.Word.{add64, sub64}
use yyckv.Util
use yyckv.Log
use yyckv.Log.Ranges
use yyckv.Unstable
use yyckv.Quorum.IdSet
use yyckv.Quorum.Majority
use yyckv.Quorum.Joint
use yyckv.Quorum.Sort
use yyckv.Tracker
use yyckv.Tracker.Progress
use yyckv.Storage.Memory
use yyckv.Raft.Send
use yyckv.Raft.Become
use yyckv.Raft.Campaign
use yyckv.Raft.Candidate
use yyckv.Raft.Follower
use yyckv.Raft.Leader
use yyckv.Raft.Replicate
use yyckv.Raft.Step
use yyckv.Raft.Tick
use yyckv.RawNode
use yyckv.Pb.{Message, message, msg_vote, msg_vote_resp}
use yyckv.Quorum.Joint.{JointConfig}
use yyckv.Raft.{RaftError, state_leader}
use yyckv.RawNode.{Ready}
use yyckv.Cluster.{
  Cluster, put, Move, ticks, receives, hands_over, advances, Reaches, starts, moves, IsStart,
  IsSent,
}
use yyckv.Cluster.Safety.{one_leader, one_grant}
use yyckv.Tests.Data.{node, young_log, tracker}

abbrev early : ℕ → RawNode.RawNode
early k = record {
  raft = record node { id = k; raft_log = young_log; election_elapsed = 12 };
  async_storage_writes = false;
  steps_on_advance = [];
}

abbrev node_of : Fallible RawNode.RawNode → RawNode.RawNode
node_of (ok rn) = rn
node_of (panic e) = early 0

abbrev stepped : Fallible (RawNode.RawNode × Option RaftError) → RawNode.RawNode × Option RaftError
stepped (ok s) = s
stepped (panic e) = (early 0, none)

abbrev drained : Fallible (RawNode.RawNode × Ready) → RawNode.RawNode × Ready
drained (ok s) = s
drained (panic e) = (early 0, record { entries = []; committed_entries = []; messages = [] })

abbrev request : Message
request = record (message msg_vote 2) { from = 1; term = 3; index = 2; log_term = 1 }

abbrev grant : Message
grant = record (message msg_vote_resp 1) { from = 2; term = 3 }

abbrev stands : RawNode.RawNode
stands = node_of (RawNode.tick (early 1))

abbrev asked : RawNode.RawNode × Ready
asked = drained (RawNode.ready stands)

abbrev voted : RawNode.RawNode
voted = node_of (RawNode.advance asked.0)

abbrev granted : RawNode.RawNode × Option RaftError
granted = stepped (RawNode.step (early 2) request)

abbrev answered : RawNode.RawNode × Ready
answered = drained (RawNode.ready granted.0)

abbrev leads : RawNode.RawNode × Option RaftError
leads = stepped (RawNode.step voted grant)

abbrev start : Cluster
start = record { nodes = early; sent = [] }

abbrev campaign : Cluster
campaign = put start 1 stands []

abbrev asking : Cluster
asking = put campaign 1 asked.0 asked.1.messages

abbrev self_vote : Cluster
self_vote = put asking 1 voted []

abbrev grants : Cluster
grants = put self_vote 2 granted.0 []

abbrev answer : Cluster
answer = put grants 2 answered.0 answered.1.messages

abbrev won : Cluster
won = put answer 1 leads.0 []

-- The six calls return what the run says, and node 2 sends its vote.
calls :
    Move start campaign
    × Move campaign asking
    × Move asking self_vote
    × Move self_vote grants
    × Move grants answer
    × Move answer won
    × IsSent answer.sent grant
    × ((won.nodes 1).raft.state ≡ state_leader)
unfolding add64 sub64 lookup insert Util.is_local_msg Util.is_response_msg Util.is_local_msg_target
    Util.vote_resp_msg_type Util.ents_size_from Util.ents_size Util.limit_rest Util.limit_size
    Util.payload_size Util.payloads_size Util.extend Log.new_log_with_size Log.first_index
    Log.last_index Log.term Log.zero_term_on_out_of_bounds Log.last_term Log.match_term
    Log.find_conflict Log.find_conflict_by_term Log.commit_to Log.append Log.maybe_append
    Log.is_up_to_date Log.maybe_commit Ranges.next_unstable_ents Ranges.has_next_unstable_ents
    Ranges.has_next_or_in_progress_unstable_ents Ranges.max_appliable_index
    Ranges.must_check_out_of_bounds Ranges.slice Ranges.entries Ranges.all_entries
    Ranges.next_committed_ents Unstable.maybe_first_index Unstable.maybe_last_index
    Unstable.maybe_term Unstable.next_entries Unstable.must_check_out_of_bounds Unstable.slice
    Unstable.truncate_and_append IdSet.add IdSet.delete Majority.count_votes Majority.vote_result
    Joint.ids Joint.combine Joint.vote_result Sort.sift Sort.sort_onto Sort.insertion_sort
    Sort.slice Tracker.clone Tracker.make_progress_tracker Tracker.conf_state Tracker.visit_order
    Tracker.voter_nodes Tracker.committed Tracker.reset_votes Tracker.record_vote Tracker.tally
    Tracker.tally_votes Progress.reset_state Progress.become_probe Progress.become_replicate
    Progress.update_on_entries_send Progress.maybe_update Progress.is_paused
    Memory.new_memory_storage Memory.term Memory.last_index Memory.first_index Memory.as_storage
    Memory.append_at Memory.append Send.with_sender Send.with_term Send.enqueue Send.send
    Become.reset_randomized_election_timeout Become.reset_progress Become.reset
    Become.become_follower Become.become_candidate Become.become_pre_candidate Become.number_entries
    Become.append_entry Become.take_lead Become.become_leader Campaign.promotable
    Campaign.request_vote Campaign.request_votes Campaign.campaign Campaign.hup Campaign.poll
    Candidate.on_vote_result Candidate.count_vote Candidate.candidate_on Follower.reject_append
    Follower.handle_append_entries Follower.handle_heartbeat Follower.forward Follower.follower_on
    Leader.fails_check Leader.check_entry Leader.check_entries Leader.propose Leader.advance_state
    Leader.after_update Leader.acknowledge Leader.with_progress Leader.leader_on
    Replicate.entries_for Replicate.send_entries Replicate.maybe_send_append Replicate.send_append
    Replicate.send_rest Replicate.visit_others Replicate.bcast_append Replicate.send_heartbeat
    Replicate.bcast_heartbeat Replicate.maybe_commit Step.raise_term Step.on_lower_term
    Step.can_vote Step.cast_vote Step.refuse_vote Step.on_vote_request Step.call_step Step.dispatch
    Step.step Tick.past_election_timeout Tick.on_tick_election Tick.check_leadership Tick.beat
    Tick.on_tick_heartbeat Tick.call_tick RawNode.tick RawNode.step RawNode.to_others
    RawNode.to_self RawNode.apply_unstable_entries RawNode.ready_without_accept RawNode.accept_ready
    RawNode.ready RawNode.step_all RawNode.advance
calls = (
  ticks start 1 stands (omega arith) (omega arith) refl,
  hands_over campaign 1 asked.0 asked.1 (omega arith) refl,
  advances asking 1 voted (omega arith) (omega arith, omega arith, omega arith) refl,
  receives self_vote 2 request granted.0 granted.1 (omega arith) (omega arith)
      (omega arith, λ e. omega arith, λ e. omega arith) (λ e. absurd (ground arith)) refl,
  hands_over grants 2 answered.0 answered.1 (omega arith) refl,
  receives answer 1 grant leads.0 leads.1 (omega arith) (omega arith)
      (omega arith, λ e. absurd (ground arith), λ e. absurd (ground arith))
      (λ e. (inr (inr (inl refl)), refl)) refl,
  inr (inr (inl refl)),
  refl,
)

run : Reaches start answer
run =
    let (a, b, c, d, e, _, _, _) = calls in
    moves _ _ _ (moves _ _ _ (moves _ _ _ (moves _ _ _ (moves _ _ _ (starts start) a) b) c) d) e

start-IsStart : IsStart tracker.config.voters start
start-IsStart = (λ k some_id. (refl, refl, refl, refl, refl, refl, refl), refl)

abbrev leader : ℕ
leader = 1

one_leader_example : leader ≡ leader
one_leader_example =
    one_leader tracker.config.voters start won won leader leader (omega arith) start-IsStart
      (moves _ _ _ run calls.5) (starts won) (omega arith) (omega arith) calls.7 calls.7 refl

one_grant_example : grant.to ≡ grant.to
one_grant_example =
    one_grant tracker.config.voters start answer grant grant start-IsStart run calls.6 calls.6 refl
      refl refl refl
