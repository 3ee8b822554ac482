-- ===== src/Raft.antt =====
-- raft/core/raft.go: the state of a node. A method that changes the receiver returns the new record.
-- `tick` and `step` are function values, of which there are two and three. `random` stands for
-- `globalRand`, and `codec` for the generated marshalling of configuration changes. The counts of
-- ticks are `int`s that start at 0 and only grow by one or are reset, and are not bounded here.
-- `pendingReadIndexMessages`, which no code uses, is left out.
use yyckv.Base.{ℕ, Bool, true, false, Option, List}
use yyckv.Log.{RaftLog}
use yyckv.Pb.{Message, ConfChange, ConfChangeV2}
use yyckv.Tracker.{ProgressTracker}
pub mod Send
pub mod Face
pub mod Ballots
pub mod Become
pub mod Replicate
pub mod Campaign
pub mod Leader
pub mod Follower
pub mod Candidate
pub mod Step
pub mod Tick
pub mod Conf
pub mod Setup

pub data StateType : Type 0 where
  state_follower state_candidate state_leader state_pre_candidate : StateType

abbrev pub is_follower : StateType → Bool
is_follower state_follower = true
is_follower _ = false

abbrev pub is_leader : StateType → Bool
is_leader state_leader = true
is_leader _ = false

abbrev pub is_pre_candidate : StateType → Bool
is_pre_candidate state_pre_candidate = true
is_pre_candidate _ = false

pub data TickFunc : Type 0 where
  tick_election tick_heartbeat : TickFunc

pub data StepFunc : Type 0 where
  step_follower step_candidate step_leader : StepFunc

pub data RaftError : Type 0 where
  proposal_dropped step_local_msg step_peer_not_found : RaftError

pub record ReadState : Type 0 where
  pub index : ℕ
  pub request_ctx : Option (List ℕ)

-- `draw k n` is the result of the call number `k` of `globalRand.Intn`, at the argument `n`.
pub record Source : Type 0 where
  pub draw : ℕ → ℕ → ℕ
  pub drawn : ℕ

-- `none` is an error.
pub record Codec : Type 0 where
  pub unmarshal_v1 : Option (List ℕ) → Option ConfChange
  pub unmarshal_v2 : Option (List ℕ) → Option ConfChangeV2
  pub marshal_v1 : ConfChange → Option (List ℕ)

pub record Raft : Type 0 where
  pub id : ℕ
  pub term : ℕ
  pub vote : ℕ
  pub read_states : List ReadState
  pub raft_log : RaftLog
  pub max_msg_size : ℕ
  pub max_uncommitted_size : ℕ
  pub trk : ProgressTracker
  pub state : StateType
  pub is_learner : Bool
  pub msgs : List Message
  pub msgs_after_append : List Message
  pub lead : ℕ
  pub lead_transferee : ℕ
  pub pending_conf_index : ℕ
  pub disable_conf_change_validation : Bool
  pub election_elapsed : ℕ
  pub heartbeat_elapsed : ℕ
  pub check_quorum : Bool
  pub pre_vote : Bool
  pub heartbeat_timeout : ℕ
  pub election_timeout : ℕ
  pub randomized_election_timeout : ℕ
  pub disable_proposal_forwarding : Bool
  pub step_down_on_removal : Bool
  pub tick : TickFunc
  pub step : StepFunc
  pub random : Source
  pub codec : Codec
