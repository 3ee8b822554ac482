-- ===== src/ConfChange.antt =====
-- raft/core/confchange/confchange.go: changes of the configuration. The changer copies the
-- configuration and the progress map before it changes them, so the caller's stay.
use yyckv.Base.{
  ℕ, suc, ◌+◌, Bool, true, false, Option, none, some, List, [], ◌∷◌, length, lookup, insert, erase,
  ltb, ◌==◌, if◌then◌else◌, Fallible, ok, ◌>>=◌, panic,
}
use yyckv.Pb.{ConfChangeSingle, ConfChangeType, add_node, remove_node, update_node}
use yyckv.Quorum.IdSet.{IdSet, members, has, add, delete}
use yyckv.Quorum.Joint.{JointConfig}
use yyckv.Tracker.{Config, ProgressMap, ProgressTracker, clone}
use yyckv.Tracker.Progress.{Progress, state_probe}
pub mod Simple

pub record Changer : Type 0 where
  pub tracker : ProgressTracker
  pub last_index : ℕ

pub data ChangeError : Type 0 where
  in_joint_config unexpected_conf_type removed_all_voters more_than_one_voter : ChangeError

-- A Go result `(tracker.Config, tracker.ProgressMap, error)`.
pub data Changed : Type 0 where
  changed : Config → ProgressMap → Changed
  refused : ChangeError → Changed

-- `delete`, which leaves a nil map where the last identifier goes.
unfoldable pub nil_aware_delete : IdSet → ℕ → IdSet
nil_aware_delete m id = let m' = delete m id in if length (members m') == 0 then none else m'

unfoldable pub nil_aware_add : IdSet → ℕ → Fallible IdSet
nil_aware_add none id = add (some []) id
nil_aware_add (some ids) id = add (some ids) id

abbrev pub set_incoming : Config → IdSet → Config
set_incoming cfg s = record cfg { voters = record { incoming = s; outgoing = cfg.voters.outgoing } }

abbrev new_progress : ℕ → Bool → Progress
new_progress last_index is_learner = record {
  match_index = 0;
  next = last_index;
  state = state_probe;
  pending_snapshot = 0;
  recent_active = true;
  msg_app_flow_paused = false;
  is_learner = is_learner;
}

-- The configuration of the first branch of `initProgress`, and of the second.
abbrev join_config : Config → ℕ → Bool → Fallible Config
join_config cfg id false = add cfg.voters.incoming id >>= λ s. ok (set_incoming cfg s)
join_config cfg id true = nil_aware_add cfg.learners id >>= λ s. ok (record cfg { learners = s })

unfoldable pub init_progress :
    Changer → Config → ProgressMap → ℕ → Bool → Fallible (Config × ProgressMap)
init_progress c cfg trk id is_learner = join_config cfg id is_learner >>= λ cfg'.
    ok (cfg', insert trk id (new_progress c.last_index is_learner))

unfoldable pub make_voter : Changer → Config → ProgressMap → ℕ → Fallible (Config × ProgressMap)
unfolding init_progress nil_aware_delete
make_voter c cfg trk id = elim (lookup trk id) [
  | none ↦ init_progress c cfg trk id false
  | some pr ↦
      (add cfg.voters.incoming id >>= λ s. ok (
        record cfg {
          voters = record { incoming = s; outgoing = cfg.voters.outgoing };
          learners = nil_aware_delete cfg.learners id;
          learners_next = nil_aware_delete cfg.learners_next id;
        },
        insert trk id (record pr { is_learner = false }),
      ))
]

unfoldable pub remove : Config → ProgressMap → ℕ → Config × ProgressMap
unfolding nil_aware_delete
remove cfg trk id = elim (lookup trk id) [
  | none ↦ (cfg, trk)
  | some pr ↦ (
    record cfg {
      voters = record { incoming = delete cfg.voters.incoming id; outgoing = cfg.voters.outgoing };
      learners = nil_aware_delete cfg.learners id;
      learners_next = nil_aware_delete cfg.learners_next id;
    },
    if has cfg.voters.outgoing id then trk else erase trk id,
  )
]

-- The switch on the type of a change: `none` is the error of an unexpected type.
unfoldable pub apply_type :
    Changer → Config × ProgressMap → ConfChangeType → ℕ → Fallible (Option (Config × ProgressMap))
unfolding make_voter remove
apply_type c (cfg, trk) add_node id = make_voter c cfg trk id >>= λ r. ok (some r)
apply_type c (cfg, trk) remove_node id = ok (some (remove cfg trk id))
apply_type c r update_node id = ok (some r)
apply_type c r _ id = ok none

-- One round of the loop of `apply`.
unfoldable pub apply_one :
    Changer → Config × ProgressMap → ConfChangeSingle → Fallible (Option (Config × ProgressMap))
unfolding apply_type
apply_one c r cc = if cc.node_id == 0 then ok (some r) else apply_type c r cc.typ cc.node_id

unfoldable pub apply_all :
    Changer
    → Config × ProgressMap
    → List ConfChangeSingle
    → Fallible (Option (Config × ProgressMap))
unfolding apply_one
apply_all c r [] = ok (some r)
apply_all c r (cc ∷ ccs) =
    apply_one c r cc >>= elim [ none ↦ ok none | some r' ↦ apply_all c r' ccs ]

abbrev check_voters : Config × ProgressMap → Changed
check_voters (cfg, trk) =
    if length (members cfg.voters.incoming) == 0
    then refused removed_all_voters
    else changed cfg trk

unfoldable pub apply : Changer → Config → ProgressMap → List ConfChangeSingle → Fallible Changed
unfolding apply_all
apply c cfg trk ccs =
    apply_all c (cfg, trk) ccs
    >>= elim [ none ↦ ok (refused unexpected_conf_type) | some r ↦ ok (check_voters r) ]

-- How many elements of the first list are not in the second set.
abbrev pub missing_from : List ℕ → IdSet → ℕ
missing_from [] s = 0
missing_from (x ∷ xs) s = (if has s x then 0 else 1) + missing_from xs s

unfoldable pub symdiff : IdSet → IdSet → ℕ
symdiff l r = missing_from (members l) r + missing_from (members r) l

unfoldable pub joint : Config → Bool
joint cfg = ltb 0 (length (members cfg.voters.outgoing))

abbrev pub check_symdiff : IdSet → Changed → Changed
unfolding symdiff
check_symdiff old (refused e) = refused e
check_symdiff old (changed cfg trk) =
    if ltb 1 (symdiff old cfg.voters.incoming) then refused more_than_one_voter else changed cfg trk

-- `checkInvariants` always succeeds, so `checkAndCopy` and `checkAndReturn` return what they are given.
unfoldable pub simple : Changer → List ConfChangeSingle → Fallible Changed
unfolding apply symdiff joint
simple c ccs =
    let cfg = clone c.tracker.config in
    if joint cfg
    then ok (refused in_joint_config)
    else (apply c cfg c.tracker.progress ccs >>= λ r.
        ok (check_symdiff c.tracker.config.voters.incoming r))
