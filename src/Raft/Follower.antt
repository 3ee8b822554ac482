-- ===== src/Raft/Follower.antt =====
-- raft/core/raft.go: `stepFollower`, and the handling of appends and heartbeats.
use yyckv.Base.{
  true, Option, none, some, List, [], ◌∷◌, ◌++◌, ltb, min, ◌==◌, ◌||◌, if◌then◌else◌, Fallible, ok,
  ◌>>=◌,
}
use yyckv.Pb.{
  Message, MessageType, Entry, message, msg_prop, msg_app, msg_heartbeat, msg_transfer_leader,
  msg_read_index, msg_read_index_resp, msg_app_resp, msg_heartbeat_resp,
}
use yyckv.Log
use yyckv.Raft.{Raft, RaftError, proposal_dropped}
use yyckv.Raft.Send.{send}

abbrev pub fine : Raft → Fallible (Raft × Option RaftError)
fine r = ok (r, none)

-- The rejection of an append, with the hint for the leader. Its log line reads a term.
unfoldable pub reject_append : Raft → Message → Fallible Raft
reject_append r m = do
  o ← Log.term r.raft_log m.index
  t ← Log.zero_term_on_out_of_bounds o
  last ← Log.last_index r.raft_log
  (hint, hint_term) ← Log.find_conflict_by_term r.raft_log (min m.index last) m.log_term
  send r (record (message msg_app_resp m.from) {
    index = m.index;
    reject = true;
    reject_hint = hint;
    log_term = hint_term;
  })

unfoldable pub handle_append_entries : Raft → Message → Fallible Raft
unfolding reject_append
handle_append_entries r m =
    if ltb m.index r.raft_log.committed
    then send r (record (message msg_app_resp m.from) { index = r.raft_log.committed })
    else (Log.maybe_append r.raft_log m.index m.log_term m.commit m.entries >>= elim [
      | some (l, last) ↦
          send (record r { raft_log = l }) (record (message msg_app_resp m.from) { index = last })
      | none ↦ reject_append r m
    ])

unfoldable pub handle_heartbeat : Raft → Message → Fallible Raft
handle_heartbeat r m = send r (record (message msg_heartbeat_resp m.from) { context = m.context })

-- `m.To = r.lead; r.send(m)`.
unfoldable pub forward : Raft → Message → Fallible (Raft × Option RaftError)
forward r m = send r (record m { to = r.lead }) >>= fine

-- A response to one read request is kept, and any other count of entries is only logged.
abbrev pub keep_read_state : Raft → Message → List Entry → Raft
keep_read_state r m [] = r
keep_read_state r m (e ∷ []) = record r {
  read_states = r.read_states ++ (record { index = m.index; request_ctx = e.payload } ∷ []);
}
keep_read_state r m (e ∷ e' ∷ es) = r

-- The switch of `stepFollower`.
unfoldable pub follower_on : MessageType → Raft → Message → Fallible (Raft × Option RaftError)
unfolding forward
follower_on msg_prop r m =
    if r.lead == 0 || r.disable_proposal_forwarding
    then ok (r, some proposal_dropped)
    else forward r m
follower_on msg_app r m =
    handle_append_entries (record r { election_elapsed = 0; lead = m.from }) m >>= fine
follower_on msg_heartbeat r m =
    handle_heartbeat (record r { election_elapsed = 0; lead = m.from }) m >>= fine
follower_on msg_transfer_leader r m = if r.lead == 0 then fine r else forward r m
follower_on msg_read_index r m = if r.lead == 0 then fine r else forward r m
follower_on msg_read_index_resp r m = fine (keep_read_state r m m.entries)
follower_on _ r m = fine r
