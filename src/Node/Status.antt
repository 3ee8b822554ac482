-- ===== src/Node/Status.antt =====
-- raft/core/status.go: what `getStatus` copies. The `HardState` and the `SoftState` are not filled in: of
-- the latter, `raft_state` is read, with the value that Go gives it.
use yyckv.Base.{ℕ, Option, none, some, List, if◌then◌else◌}
use yyckv.Tracker.{Config, clone}
use yyckv.Tracker.Progress.{Progress}
use yyckv.Raft.{Raft, StateType, state_follower, is_leader}

pub record BasicStatus : Type 0 where
  pub id : ℕ
  pub raft_state : StateType
  pub applied : ℕ
  pub lead_transferee : ℕ

pub record Status : Type 0 where
  pub basic_status : BasicStatus
  pub config : Config
  pub progress : Option (List (ℕ × Progress))

abbrev pub get_basic_status : Raft → BasicStatus
get_basic_status r = record {
  id = r.id;
  raft_state = state_follower;
  applied = r.raft_log.applied;
  lead_transferee = r.lead_transferee;
}

-- `getProgressCopy`: a map has no order, and the values are copies.
abbrev get_progress_copy : Raft → List (ℕ × Progress)
get_progress_copy r = r.trk.progress

unfoldable pub get_status : Raft → Status
get_status r =
    let basic = get_basic_status r in
    record {
      basic_status = basic;
      config = clone r.trk.config;
      progress = if is_leader basic.raft_state then some (get_progress_copy r) else none;
    }
