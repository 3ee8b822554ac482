-- ===== src/Raft/Conf.antt =====
-- raft/core/raft.go: `applyConfChange` and `switchToConfig`.
use yyckv.Base.{
  ℕ, Bool, true, false, not, Option, none, some, length, lookup, ◌==◌, ◌&&◌, ◌||◌, if◌then◌else◌,
  Fallible, ok, panic, raised, ◌>>=◌,
}
use yyckv.Pb.{ConfChangeV2, ConfState}
use yyckv.Log
use yyckv.Tracker.{Config, ProgressMap, conf_state, visit_order}
use yyckv.Tracker.Progress.{Progress}
use yyckv.ConfChange.{Changed, changed, refused, simple}
use yyckv.Raft.{Raft, is_leader}
use yyckv.Raft.Become.{become_follower}
use yyckv.Raft.Replicate.{maybe_commit, bcast_append, maybe_send_append, visit_others}

abbrev listed_learner : Option Progress → Bool
listed_learner none = false
listed_learner (some pr) = pr.is_learner

abbrev is_listed : Option Progress → Bool
is_listed none = false
is_listed (some pr) = true

-- The probe of a replica that may have been added.
unfoldable pub probe : Raft → ℕ → Fallible Raft
probe r id = maybe_send_append r id false >>= λ s. ok s.0

-- The messages of a leader after the change.
unfoldable pub announce : Raft → Fallible Raft
unfolding probe
announce r = maybe_commit r >>= λ s.
    if s.1 then bcast_append s.0 else visit_others probe (visit_order s.0.trk) s.0

unfoldable pub switch_to_config : Raft → Config → ProgressMap → Fallible (Raft × ConfState)
unfolding announce
switch_to_config r cfg trk =
    let own = lookup trk r.id in
    let tracker = record (r.trk) { config = cfg; progress = trk } in
    let r₁ = record r { trk = tracker; is_learner = listed_learner own } in
    let cs = conf_state tracker in
    if (not (is_listed own) || r₁.is_learner) && is_leader r₁.state
    then (if r₁.step_down_on_removal
        then (become_follower r₁ r₁.term 0 >>= λ r'. ok (r', cs))
        else ok (r₁, cs))
    else if not (is_leader r₁.state) || length cs.voters == 0
    then ok (r₁, cs)
    else (announce r₁ >>= λ r'. ok (r', cs))

abbrev must_change : Raft → Changed → Fallible (Raft × ConfState)
unfolding switch_to_config
must_change r (refused e) = panic raised
must_change r (changed cfg trk) = switch_to_config r cfg trk

unfoldable pub apply_conf_change : Raft → ConfChangeV2 → Fallible (Raft × ConfState)
unfolding switch_to_config
apply_conf_change r cc = Log.last_index r.raft_log >>= λ last.
    simple (record { tracker = r.trk; last_index = last }) cc.changes >>= must_change r
