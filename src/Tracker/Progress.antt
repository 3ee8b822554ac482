-- ===== src/Tracker/Progress.antt =====
-- raft/core/tracker/progress.go and state.go: the progress of one node in the eyes of the leader.
use yyckv.Base.{ℕ, Bool, true, false, ltb, max, ◌||◌, if◌then◌else◌, Option, none, some}
use yyckv.Base.Word.{add64}

pub data StateType : Type 0 where
  state_probe state_replicate state_snapshot : StateType

pub record Progress : Type 0 where
  pub match_index : ℕ
  pub next : ℕ
  pub state : StateType
  pub pending_snapshot : ℕ
  pub recent_active : Bool
  pub msg_app_flow_paused : Bool
  pub is_learner : Bool

abbrev pub is_probe : StateType → Bool
is_probe state_probe = true
is_probe _ = false

abbrev pub is_snapshot : StateType → Bool
is_snapshot state_snapshot = true
is_snapshot _ = false

abbrev pub is_replicate : StateType → Bool
is_replicate state_replicate = true
is_replicate _ = false

unfoldable pub reset_state : Progress → StateType → Progress
reset_state pr s = record pr { msg_app_flow_paused = false; pending_snapshot = 0; state = s }

unfoldable pub become_probe : Progress → Progress
unfolding reset_state
become_probe pr =
    let reset = reset_state pr state_probe in
    if is_snapshot pr.state
    then record reset { next = max (add64 pr.match_index 1) (add64 pr.pending_snapshot 1) }
    else record reset { next = add64 pr.match_index 1 }

unfoldable pub become_replicate : Progress → Progress
unfolding reset_state
become_replicate pr =
    let reset = reset_state pr state_replicate in record reset { next = add64 pr.match_index 1 }

abbrev update_in_state : StateType → Progress → ℕ → Option Progress
update_in_state state_replicate pr entries = some pr
update_in_state state_probe pr entries =
    some (if ltb 0 entries then record pr { msg_app_flow_paused = true } else pr)
update_in_state state_snapshot pr entries = none

-- `none` is the error of an unhandled state.
unfoldable pub update_on_entries_send : Progress → ℕ → Option Progress
update_on_entries_send pr entries = update_in_state pr.state pr entries

unfoldable pub maybe_update : Progress → ℕ → Progress × Bool
maybe_update pr n =
    let next = max pr.next (add64 n 1) in
    if ltb pr.match_index n
    then (record pr { match_index = n; msg_app_flow_paused = false; next = next }, true)
    else (record pr { next = next }, false)

unfoldable pub is_paused : Progress → Bool
is_paused pr = is_snapshot pr.state || pr.msg_app_flow_paused
