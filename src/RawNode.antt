-- ===== src/RawNode.antt =====
-- raft/core/rawnode.go, bootstrap.go and the struct `Ready` of node.go: the node as the application
-- drives it. `SoftState` and `HardState` are never filled in, and are left out.
use yyckv.Base.{
  ℕ, zero, suc, Bool, true, false, not, Option, none, some, List, [], ◌∷◌, ◌++◌, length, lookup,
  ltb, ◌==◌, ◌&&◌, ◌||◌, if◌then◌else◌, Fallible, ok, panic, log_panic, raised, ◌>>=◌,
}
use yyckv.Base.Word.{add64}
use yyckv.Pb.{Message, Entry, entry_conf_change, ConfChange, ConfChangeI, add_node, v1, as_v2}
use yyckv.Log
use yyckv.Log.Ranges
use yyckv.Storage.{Outcome, found, failed}
use yyckv.Util.{is_local_msg, is_response_msg, is_local_msg_target}
use yyckv.Raft.{Raft, RaftError, step_local_msg, step_peer_not_found, Source, Codec}
use yyckv.Raft
use yyckv.Raft.Become.{become_follower}
use yyckv.Raft.Setup.{Config, new_raft, is_missing}
pub mod Bootstrap
pub mod Delivery

pub record RawNode : Type 0 where
  pub raft : Raft
  pub async_storage_writes : Bool
  pub steps_on_advance : List Message

pub record Ready : Type 0 where
  pub entries : List Entry
  pub committed_entries : List Entry
  pub messages : List Message

unfoldable pub new_raw_node : Config → Source → Codec → Fallible RawNode
new_raw_node c random codec = new_raft c random codec >>= λ r.
    ok (record { raft = r; async_storage_writes = c.async_storage_writes; steps_on_advance = [] })

unfoldable pub tick : RawNode → Fallible RawNode
tick rn = Raft.Tick.call_tick rn.raft.tick rn.raft >>= λ r. ok (record rn { raft = r })

unfoldable pub has_ready : RawNode → Bool
has_ready rn =
    ltb 0 (length rn.raft.msgs)
    || ltb 0 (length rn.raft.msgs_after_append)
    || ltb 0 (length rn.raft.read_states)

unfoldable pub step : RawNode → Message → Fallible (RawNode × Option RaftError)
step rn m =
    if is_local_msg m.typ && not (is_local_msg_target m.from)
    then ok (rn, some step_local_msg)
    else if is_response_msg m.typ
        && not (is_local_msg_target m.from)
        && is_missing (lookup rn.raft.trk.progress m.from)
    then ok (rn, some step_peer_not_found)
    else (Raft.Step.step rn.raft m >>= λ s. ok (record rn { raft = s.0 }, s.1))

-- The messages that go to other nodes, and those that a node sends to itself.
unfoldable pub to_others : ℕ → List Message → List Message
to_others id [] = []
to_others id (m ∷ ms) = let rest = to_others id ms in if m.to == id then rest else m ∷ rest

unfoldable pub to_self : ℕ → List Message → List Message
to_self id [] = []
to_self id (m ∷ ms) = let rest = to_self id ms in if m.to == id then m ∷ rest else rest

unfoldable pub apply_unstable_entries : RawNode → Bool
apply_unstable_entries rn = not rn.async_storage_writes

unfoldable pub ready_without_accept : RawNode → Fallible Ready
unfolding to_others
ready_without_accept rn = do
  let r = rn.raft
  ents ← Log.Ranges.next_unstable_ents r.raft_log
  committed ← Log.Ranges.next_committed_ents r.raft_log (apply_unstable_entries rn)
  ok (record {
    entries = ents;
    committed_entries = committed;
    messages =
        if rn.async_storage_writes then r.msgs else r.msgs ++ to_others r.id r.msgs_after_append;
  })

-- It reads nothing of the `Ready` but the count of committed entries, for which it does nothing.
unfoldable pub accept_ready : RawNode → Fallible RawNode
unfolding to_self
accept_ready rn =
    let r = rn.raft in
    let sent = record r { msgs = []; msgs_after_append = [] } in
    if rn.async_storage_writes
    then ok (record rn { raft = sent })
    else if length rn.steps_on_advance == 0
    then ok (record rn { raft = sent; steps_on_advance = to_self r.id r.msgs_after_append })
    else panic log_panic

unfoldable pub ready : RawNode → Fallible (RawNode × Ready)
ready rn = ready_without_accept rn >>= λ rd. accept_ready rn >>= λ rn'. ok (rn', rd)

unfoldable pub step_all : Raft → List Message → Fallible Raft
step_all r [] = ok r
step_all r (m ∷ ms) = Raft.Step.step r m >>= λ s. step_all s.0 ms

unfoldable pub advance : RawNode → Fallible RawNode
unfolding step_all
advance rn =
    if rn.async_storage_writes
    then panic log_panic
    else (step_all rn.raft rn.steps_on_advance >>= λ r.
        ok (record rn { raft = r; steps_on_advance = [] }))
