-- ===== src/Tests/Rounds.antt =====
-- The theorems on the loop of a node at concrete inputs.
use yyckv.Base.{◌≡◌, ◌≢◌, refl, true, false, [], ◌∷◌, ok, panic, Fallible, Returns}
use yyckv.Base.Word.{add64, sub64}
use yyckv.Pb.{message, msg_prop}
use yyckv.Log.{first_index, last_index}
use yyckv.Log.Ranges
use yyckv.Log.Ranges.{
  next_committed_ents, next_unstable_ents, max_appliable_index, must_check_out_of_bounds,
}
use yyckv.Unstable
use yyckv.Unstable.{next_entries, maybe_first_index, maybe_last_index}
use yyckv.Storage.Memory
use yyckv.Storage.Memory.{as_storage, new_memory_storage}
use yyckv.Util.{limit_size}
use yyckv.RawNode.{RawNode, has_ready, ready_without_accept, to_others, apply_unstable_entries}
use yyckv.Node.{
  Loop, status_asked, ready_taken, start_loop, offer, follow_leader, prepare, is_ready, serve, run,
}
use yyckv.Node.Handshake.{serve-ready_taken, serve-proposal}
use yyckv.Tests.Data.{node, raw}

-- A follower of node 2.
abbrev led : RawNode
led = record raw { raft = record node { raft_log = raw.raft.raft_log; lead = 2 } }

abbrev loop_of : Fallible Loop → Loop
loop_of (ok l) = l
loop_of (panic e) = start_loop raw

abbrev offered : Loop
offered = loop_of (prepare (start_loop raw))

abbrev prepared : Loop
prepared = loop_of (prepare (start_loop led))

-- The loops are what the first rounds return; the second asks for the status.
rounds :
    (prepare (start_loop raw) ≡ ok offered)
    × (run (start_loop raw) (status_asked ∷ []) ≡ ok offered)
    × (prepare offered ≡ ok offered)
    × (offered.offers ≡ true)
    × (run (start_loop led) (status_asked ∷ []) ≡ ok prepared)
    × (prepare prepared ≡ ok prepared)
    × (prepared.proposes ≡ true)
    × (prepared.rn.raft.lead ≡ 2)
unfolding prepare offer follow_leader run is_ready serve has_ready ready_without_accept to_others
    next_unstable_ents next_committed_ents next_entries sub64 add64 apply_unstable_entries
    max_appliable_index Ranges.slice Unstable.slice must_check_out_of_bounds first_index last_index
    maybe_first_index maybe_last_index as_storage Memory.first_index Memory.last_index
    new_memory_storage limit_size
rounds = (refl, refl, refl, refl, refl, refl, refl, refl)

serve-ready_taken_example :
    Returns
      (serve offered ready_taken)
      λ q. (q.offers ≡ false) × (q.rn.raft.msgs ≡ []) × (q.rn.raft.msgs_after_append ≡ [])
unfolding is_ready
serve-ready_taken_example =
    serve-ready_taken raw (status_asked ∷ []) offered offered refl rounds.1 rounds.2 rounds.3

serve-proposal_example : prepared.rn.raft.lead ≢ 0
unfolding is_ready
serve-proposal_example =
    serve-proposal led (status_asked ∷ []) prepared prepared (message msg_prop 0) refl rounds.4
      rounds.5 rounds.6
