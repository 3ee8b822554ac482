-- ===== src/Raft/Leader.antt =====
-- raft/core/raft.go: `stepLeader`.
use yyckv.Base.{
  ℕ, suc, Bool, true, not, Option, none, some, List, [], ◌∷◌, length, lookup, insert, ltb, leb,
  ◌==◌, ◌&&◌, ◌||◌, if◌then◌else◌, Fallible, ok, panic, log_panic, raised, ◌>>=◌,
}
use yyckv.Base.Word.{add64}
use yyckv.Pb.{
  Message, MessageType, Entry, EntryType, entry_normal, entry_conf_change, entry_conf_change_v2,
  msg_beat, msg_check_quorum, msg_prop, msg_forget_leader, msg_app_resp, ConfChangeI, v1, v2, as_v2,
}
use yyckv.Log
use yyckv.Quorum.IdSet.{members}
use yyckv.Tracker.Progress.{
  Progress, StateType, state_probe, state_replicate, state_snapshot, is_probe, is_paused,
  maybe_update, become_probe, become_replicate,
}
use yyckv.Raft.{Raft, RaftError, proposal_dropped}
use yyckv.Raft.Become.{append_entry, empty_entry}
use yyckv.Raft.Replicate.{bcast_append, bcast_heartbeat, send_append, send_rest, maybe_commit}
use yyckv.Raft.Follower.{fine}

-- The configuration change that an entry carries. A text that does not parse panics.
abbrev pub parsed {ℓ} : {A : Type ℓ} → (A → ConfChangeI) → Option A → Fallible (Option ConfChangeI)
parsed wrap none = panic raised
parsed wrap (some c) = ok (some (wrap c))

abbrev pub conf_change_of : Raft → EntryType → Option (List ℕ) → Fallible (Option ConfChangeI)
conf_change_of r entry_normal payload = ok none
conf_change_of r entry_conf_change payload = parsed v1 (r.codec.unmarshal_v1 payload)
conf_change_of r entry_conf_change_v2 payload = parsed v2 (r.codec.unmarshal_v2 payload)

-- `failedCheck != ""`.
unfoldable pub fails_check : Raft → ConfChangeI → Bool
fails_check r cc =
    let already_pending = ltb r.raft_log.applied r.pending_conf_index in
    let already_joint = ltb 0 (length (members r.trk.config.voters.outgoing)) in
    let wants_leave_joint = length ((as_v2 cc).changes) == 0 in
    already_pending
    || (already_joint && not wants_leave_joint)
    || (not already_joint && wants_leave_joint)

-- One round of the loop over the entries of a proposal, for the entry with number `i`.
unfoldable pub check_entry : Raft → ℕ → Entry → Fallible (Raft × Entry)
unfolding fails_check
check_entry r i e = conf_change_of r e.typ e.payload >>= elim [
  | none ↦ ok (r, e)
  | some cc ↦
      if fails_check r cc && not r.disable_conf_change_validation
      then ok (r, empty_entry)
      else (Log.last_index r.raft_log >>= λ last.
          ok (record r { pending_conf_index = add64 (add64 last i) 1 }, e))
]

unfoldable pub check_entries : Raft → ℕ → List Entry → Fallible (Raft × List Entry)
unfolding check_entry
check_entries r i [] = ok (r, [])
check_entries r i (e ∷ es) =
    check_entry r i e >>= λ s. check_entries s.0 (suc i) es >>= λ t. ok (t.0, s.1 ∷ t.1)

unfoldable pub propose : Raft → List Entry → Fallible (Raft × Option RaftError)
unfolding check_entries
propose r [] = panic log_panic
propose r (e ∷ es) = elim (lookup r.trk.progress r.id) [
  | none ↦ ok (r, some proposal_dropped)
  | some pr ↦
      if r.lead_transferee == 0
      then (check_entries r 0 (e ∷ es) >>= λ s.
          append_entry s.0 s.1 >>= λ r'. bcast_append r' >>= fine)
      else ok (r, some proposal_dropped)
]

-- The inner switch on the state of a progress that has been updated.
unfoldable pub advance_state : Raft → StateType → Progress → Fallible Progress
advance_state r state_probe pr = ok (become_replicate pr)
advance_state r state_snapshot pr = Log.first_index r.raft_log >>= λ first.
    ok (if leb first (add64 pr.match_index 1) then become_replicate (become_probe pr) else pr)
advance_state r state_replicate pr = ok pr

-- What follows the update of the progress of `from`.
unfoldable pub after_update : Raft → ℕ → Bool → Fallible Raft
after_update r from old_paused =
    (maybe_commit r >>= λ s.
    if s.1 then bcast_append s.0 else if old_paused then send_append s.0 from else ok s.0)
    >>= λ r'. if r'.id == from then ok r' else send_rest 2 r' from

abbrev pub set_progress : Raft → ℕ → Progress → Raft
set_progress r id pr = record r { trk = record (r.trk) { progress = insert r.trk.progress id pr } }

unfoldable pub acknowledge : Raft → Message → Progress → Fallible Raft
unfolding advance_state after_update
acknowledge r m pr =
    let active = record pr { recent_active = true } in
    let updated = maybe_update active m.index in
    let pr' = updated.0 in
    if m.reject
    then ok (set_progress r m.from active)
    else if updated.1 || (pr'.match_index == m.index && is_probe pr'.state)
    then (advance_state r pr'.state pr' >>= λ pr''.
        after_update (set_progress r m.from pr'') m.from (is_paused active))
    else ok (set_progress r m.from pr')

abbrev pub on_response : MessageType → Raft → Message → Progress → Fallible Raft
on_response msg_app_resp r m pr = acknowledge r m pr
on_response _ r m pr = ok r

-- The second switch of `stepLeader`, for the types that require a progress.
unfoldable pub with_progress : Raft → Message → Fallible (Raft × Option RaftError)
unfolding acknowledge
with_progress r m = elim (lookup r.trk.progress m.from) [
  | none ↦ fine r
  | some pr ↦ on_response m.typ r m pr >>= fine
]

unfoldable pub leader_on : MessageType → Raft → Message → Fallible (Raft × Option RaftError)
unfolding propose with_progress
leader_on msg_beat r m = bcast_heartbeat r >>= fine
leader_on msg_check_quorum r m = fine r
leader_on msg_prop r m = propose r m.entries
leader_on msg_forget_leader r m = fine r
leader_on _ r m = with_progress r m
