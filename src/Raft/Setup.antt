-- ===== src/Raft/Setup.antt =====
-- raft/core/raft.go: `Config.validate` and `newRaft`. The three `int` fields are integers; a nil
-- storage is `none`. The logger, which `validate` sets by default, is left out.
use yyckv.Base.{
  ℕ, zero, suc, Bool, true, false, Option, none, some, List, [], ltb, leb, ◌==◌, ◌||◌, ◌&&◌, not,
  if◌then◌else◌, Fallible, ok, panic, raised, nil_deref, deref, ◌>>=◌,
}
use yyckv.Log
use yyckv.Log.Ranges.{no_limit}
use yyckv.Storage.{Storage}
use yyckv.Tracker.{make_progress_tracker}
use yyckv.Util.{is_local_msg_target}
use yyckv.Raft.{Raft, Source, Codec, state_follower, tick_election, step_follower}
use yyckv.Raft.Become.{become_follower}
pub mod Valid

-- `negsuc n` is -(n + 1).
pub data ℤ : Type 0 where
  pos : ℕ → ℤ
  negsuc : ℕ → ℤ

abbrev pub not_positive : ℤ → Bool
not_positive (pos n) = n == 0
not_positive (negsuc n) = true

abbrev pub at_most : ℤ → ℤ → Bool
at_most (pos a) (pos b) = leb a b
at_most (pos a) (negsuc b) = false
at_most (negsuc a) (pos b) = true
at_most (negsuc a) (negsuc b) = leb b a

abbrev pub to_ℕ : ℤ → ℕ
to_ℕ (pos n) = n
to_ℕ (negsuc n) = 0

pub record Config : Type 0 where
  pub id : ℕ
  pub election_tick : ℤ
  pub heartbeat_tick : ℤ
  pub storage : Option Storage
  pub async_storage_writes : Bool
  pub max_size_per_msg : ℕ
  pub max_committed_size_per_ready : ℕ
  pub max_uncommitted_entries_size : ℕ
  pub max_inflight_msgs : ℤ
  pub max_inflight_bytes : ℕ
  pub check_quorum : Bool
  pub pre_vote : Bool

abbrev pub is_missing {ℓ} : {A : Type ℓ} → Option A → Bool
is_missing none = true
is_missing (some a) = false

-- The defaults that `validate` puts in.
unfoldable pub with_defaults : Config → Config
with_defaults c = record c {
  max_uncommitted_entries_size =
      if c.max_uncommitted_entries_size == 0 then no_limit else c.max_uncommitted_entries_size;
  max_committed_size_per_ready =
      if c.max_committed_size_per_ready == 0
      then c.max_size_per_msg
      else c.max_committed_size_per_ready;
  max_inflight_bytes = if c.max_inflight_bytes == 0 then no_limit else c.max_inflight_bytes;
}

-- `none` is any of the errors.
unfoldable pub validate : Config → Option Config
unfolding with_defaults
validate c =
    if c.id == 0 || is_local_msg_target c.id
    then none
    else if not_positive c.heartbeat_tick || at_most c.election_tick c.heartbeat_tick
    then none
    else if is_missing c.storage || not_positive c.max_inflight_msgs
    then none
    else if not (c.max_inflight_bytes == 0) && ltb c.max_inflight_bytes c.max_size_per_msg
    then none
    else some (with_defaults c)

-- The record that `newRaft` builds, before it becomes a follower.
abbrev new_record : Config → Log.RaftLog → Source → Codec → Raft
new_record c l random codec = record {
  id = c.id;
  term = 0;
  vote = 0;
  read_states = [];
  raft_log = l;
  max_msg_size = 0;
  max_uncommitted_size = 0;
  trk = make_progress_tracker (to_ℕ c.max_inflight_msgs) c.max_inflight_bytes;
  state = state_follower;
  is_learner = false;
  msgs = [];
  msgs_after_append = [];
  lead = 0;
  lead_transferee = 0;
  pending_conf_index = 0;
  disable_conf_change_validation = false;
  election_elapsed = 0;
  heartbeat_elapsed = 0;
  check_quorum = c.check_quorum;
  pre_vote = c.pre_vote;
  heartbeat_timeout = to_ℕ c.heartbeat_tick;
  election_timeout = to_ℕ c.election_tick;
  randomized_election_timeout = 0;
  disable_proposal_forwarding = false;
  step_down_on_removal = false;
  tick = tick_election;
  step = step_follower;
  random = random;
  codec = codec;
}

-- Its log line reads the last index and the last term.
unfoldable pub new_raft : Config → Source → Codec → Fallible Raft
new_raft c random codec = elim (validate c) [
  | none ↦ panic raised
  | some c' ↦ (do
    storage ← deref c'.storage
    l ← Log.new_log_with_size storage c'.max_committed_size_per_ready
    r ← become_follower (new_record c' l random codec) 0 0
    last ← Log.last_index r.raft_log
    t ← Log.last_term r.raft_log
    ok r)
]
