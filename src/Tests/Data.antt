-- ===== src/Tests/Data.antt =====
-- A storage with the entries 1 and 2, a log with entry 3 that is not stored yet, and a node that has it.
use yyckv.Base.{ℕ, false, none, some, [], ◌∷◌, refl, arith, ◌≡◌, ◌-◌}
use yyckv.Pb.{Entry, Message, message, entry_normal, msg_vote}
use yyckv.Storage.Memory.{MemoryStorage, as_storage, new_memory_storage}
use yyckv.Storage.Memory.Laws as Memory
use yyckv.Unstable.{Unstable}
use yyckv.Unstable.View
use yyckv.Log.{RaftLog}
use yyckv.Log.View.{Stable, IsValid, term_at}
use yyckv.Tracker.{ProgressTracker}
use yyckv.Tracker.Progress.{Progress, state_probe, state_replicate, StateType}
use yyckv.Raft.{Raft, state_follower, tick_election, step_follower}
use yyckv.RawNode.{RawNode}

abbrev pub entry : ℕ → ℕ → Entry
entry i t = record { term = t; index = i; typ = entry_normal; payload = none }

abbrev pub memory : MemoryStorage
memory = record { ents = entry 0 0 ∷ entry 1 1 ∷ entry 2 1 ∷ [] }

pub memory-IsValid : Memory.IsValid memory 0
memory-IsValid = record { some_ents = omega arith; run = omega arith; fits = omega arith }

abbrev pub fresh : Unstable
fresh = record {
  snapshot = none;
  entries = entry 3 2 ∷ [];
  offset = 3;
  snapshot_in_progress = false;
  offset_in_progress = 3;
}

pub fresh-IsValid : View.IsValid fresh
fresh-IsValid = record {
  contiguous = omega arith;
  progress_low = omega arith;
  progress_high = omega arith;
  fits = omega arith;
}

abbrev pub stable : Stable
stable = record { first = 1; last = 2; terms = λ i. Memory.term_of memory.ents (i - 0) }

abbrev pub log : RaftLog
log = record {
  storage = as_storage memory;
  unstable = fresh;
  committed = 1;
  applying = 0;
  applied = 0;
  max_applying_ents_size = 100;
  applying_ents_size = 0;
  applying_ents_paused = false;
}

pub log-IsValid : IsValid stable log
log-IsValid = record {
  holds = Memory.as_storage-Holds memory 0 memory-IsValid;
  no_snapshot = refl;
  unstable = fresh-IsValid;
  low = omega arith;
  joined = omega arith;
  flush = λ empty. absurd (omega arith);
  committed_low = omega arith;
  committed_high = omega arith;
}

pub term_2 : term_at stable log 2 ≡ some 1
unfolding term_at
term_2 = refl

abbrev pub progress : StateType → Progress
progress s = record {
  match_index = 0;
  next = 3;
  state = s;
  pending_snapshot = 0;
  recent_active = false;
  msg_app_flow_paused = false;
  is_learner = false;
}

abbrev pub tracker : ProgressTracker
tracker = record {
  config = record {
    voters = record { incoming = some (1 ∷ 2 ∷ 3 ∷ []); outgoing = none };
    auto_leave = false;
    learners = none;
    learners_next = none;
  };
  progress =
      (1, progress state_probe) ∷ (2, progress state_replicate) ∷ (3, progress state_probe) ∷ [];
  votes = [];
  max_inflight = 256;
  max_inflight_bytes = 1000;
}

-- A follower of term 2 that has not voted.
abbrev pub node : Raft
node = record {
  id = 1;
  term = 2;
  vote = 0;
  read_states = [];
  raft_log = log;
  max_msg_size = 1000;
  max_uncommitted_size = 1000;
  trk = tracker;
  state = state_follower;
  is_learner = false;
  msgs = [];
  msgs_after_append = [];
  lead = 0;
  lead_transferee = 0;
  pending_conf_index = 0;
  disable_conf_change_validation = false;
  election_elapsed = 0;
  heartbeat_elapsed = 0;
  check_quorum = false;
  pre_vote = false;
  heartbeat_timeout = 1;
  election_timeout = 10;
  randomized_election_timeout = 12;
  disable_proposal_forwarding = false;
  step_down_on_removal = false;
  tick = tick_election;
  step = step_follower;
  random = record { draw = λ k n. 2; drawn = 0 };
  codec = record { unmarshal_v1 = λ p. none; unmarshal_v2 = λ p. none; marshal_v1 = λ c. some [] };
}

-- A request of node 2 for a vote, with a log as long.
abbrev pub request : ℕ → Message
request term = record (message msg_vote 1) { from = 2; term = term; index = 3; log_term = 2 }

-- A log with nothing in its storage, and one entry that is committed and not applied.
abbrev pub young_log : RaftLog
young_log = record {
  storage = as_storage new_memory_storage;
  unstable = record {
    snapshot = none;
    entries = entry 1 1 ∷ entry 2 1 ∷ [];
    offset = 1;
    snapshot_in_progress = false;
    offset_in_progress = 1;
  };
  committed = 1;
  applying = 0;
  applied = 0;
  max_applying_ents_size = 100;
  applying_ents_size = 0;
  applying_ents_paused = false;
}

-- A node with an answer to itself and one to node 2.
abbrev pub raw : RawNode
raw = record {
  raft = record node {
    raft_log = young_log;
    msgs_after_append = message msg_vote 1 ∷ message msg_vote 2 ∷ [];
  };
  async_storage_writes = false;
  steps_on_advance = [];
}
