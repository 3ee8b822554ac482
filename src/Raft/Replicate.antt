-- ===== src/Raft/Replicate.antt =====
-- raft/core/raft.go: the messages of a leader to its followers.
use yyckv.Base.{
  ℕ, zero, suc, Bool, true, false, not, Option, none, some, List, [], ◌∷◌, length, lookup, insert,
  ltb, min, ◌==◌, ◌&&◌, ◌||◌, if◌then◌else◌, Fallible, ok, panic, log_panic, out_of_fuel, deref,
  ◌>>=◌,
}
use yyckv.Base.Word.{sub64}
use yyckv.Pb.{Entry, message, msg_app, msg_heartbeat}
use yyckv.Storage.{Outcome, found, failed}
use yyckv.Log
use yyckv.Log.Ranges
use yyckv.Tracker.{visit_order, committed}
use yyckv.Tracker.Progress.{Progress, is_replicate, update_on_entries_send}
use yyckv.Raft.{Raft}
use yyckv.Raft.Send.{send}
pub mod Laws

abbrev pub or_empty : Outcome (List Entry) → List Entry
or_empty (found es) = es
or_empty (failed e) = []

abbrev pub is_failed {ℓ} : {A : Type ℓ} → Outcome A → Bool
is_failed (found a) = false
is_failed (failed e) = true

abbrev pub or_zero : Outcome ℕ → ℕ
or_zero (found t) = t
or_zero (failed e) = 0

-- The entries that an append to a follower carries: none to one in `StateReplicate`.
unfoldable pub entries_for : Raft → Progress → Fallible (Outcome (List Entry))
entries_for r pr =
    if is_replicate pr.state
    then ok (found [])
    else Log.Ranges.entries r.raft_log pr.next r.max_msg_size

-- The tail of `maybeSendAppend`, once the entries are there.
unfoldable pub send_entries : Raft → ℕ → Progress → ℕ → List Entry → Fallible (Raft × Bool)
send_entries r dest pr log_term ents = elim (update_on_entries_send pr (length ents)) [
  | none ↦ panic log_panic
  | some pr' ↦
      (send (record r { trk = record (r.trk) { progress = insert r.trk.progress dest pr' } })
          (record (message msg_app dest) {
            index = sub64 pr.next 1;
            log_term = log_term;
            entries = ents;
            commit = r.raft_log.committed;
          })
        >>= λ r'. ok (r', true))
]

unfoldable pub maybe_send_append : Raft → ℕ → Bool → Fallible (Raft × Bool)
unfolding send_entries entries_for
maybe_send_append r dest send_if_empty = do
  pr ← deref (lookup r.trk.progress dest)
  last ← Log.term r.raft_log (sub64 pr.next 1)
  ents ← entries_for r pr
  if length (or_empty ents) == 0 && not send_if_empty
      then ok (r, false)
      else if is_failed last || is_failed ents
      then ok (r, pr.recent_active)
      else send_entries r dest pr (or_zero last) (or_empty ents)

unfoldable pub send_append : Raft → ℕ → Fallible Raft
send_append r dest = maybe_send_append r dest true >>= λ s. ok s.0

-- The loop of `stepLeader` that sends while there is more to send, with fuel for its rounds.
unfoldable pub send_rest : ℕ → Raft → ℕ → Fallible Raft
send_rest zero r dest = panic out_of_fuel
send_rest (suc fuel) r dest = maybe_send_append r dest false >>= λ s. elim s.1 [
  | true ↦ send_rest fuel s.0 dest
  | false ↦ ok s.0
]

-- A closure that `Visit` calls for every node but this one.
unfoldable pub visit_others : (Raft → ℕ → Fallible Raft) → List ℕ → Raft → Fallible Raft
visit_others f [] r = ok r
visit_others f (id ∷ ids) r = (if id == r.id then ok r else f r id) >>= λ r'. visit_others f ids r'

unfoldable pub bcast_append : Raft → Fallible Raft
unfolding visit_others
bcast_append r = visit_others send_append (visit_order r.trk) r

unfoldable pub send_heartbeat : Option (List ℕ) → Raft → ℕ → Fallible Raft
send_heartbeat ctx r dest = do
  pr ← deref (lookup r.trk.progress dest)
  send r (record (message msg_heartbeat dest) {
    commit = min pr.match_index r.raft_log.committed;
    context = ctx;
  })

-- With no pending read-only request the context is nil.
unfoldable pub bcast_heartbeat : Raft → Fallible Raft
unfolding visit_others
bcast_heartbeat r = visit_others (send_heartbeat none) (visit_order r.trk) r

unfoldable pub maybe_commit : Raft → Fallible (Raft × Bool)
maybe_commit r = Log.maybe_commit r.raft_log (committed r.trk) r.term >>= λ s.
    ok (record r { raft_log = s.0 }, s.1)
