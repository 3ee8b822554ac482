-- ===== src/Kv.antt =====
-- kv/raftNode.go and kv/kvstore.go: committed entries become commits, and commits the key-value map.
-- `unmarshal` is the change that `cc.Unmarshal` leaves in `cc`, whether it fails or not, and `decode` is
-- the decoder of gob. `taken` tells for each commit that the store takes it before `stopc` is closed. The
-- calls of the transport are recorded; Kv.Ready makes them.
use yyckv.Base.{
  Text, ℕ, Bool, true, false, not, Option, none, some, List, [], ◌∷◌, ◌++◌, length, ltb, ◌==◌, ◌||◌,
  if◌then◌else◌, Fallible, ok, panic, fatal, ◌>>=◌, sub_slice,
}
use yyckv.Base.Word.{add64, sub64}
use yyckv.Pb.{
  Entry, EntryType, entry_normal, entry_conf_change, entry_conf_change_v2, ConfState, ConfChange,
  add_node, remove_node, update_node, add_learner_node, other_type, v1, as_v2, Message, MessageType,
  msg_snap, Snapshot,
}
use yyckv.Raft.{Raft}
use yyckv.Raft.Conf.{apply_conf_change}
pub mod Publish
pub mod Replay
pub mod Store
pub mod Agree
pub mod Serve
pub mod Proposals
pub mod Start
pub mod Ready
pub mod Stop

pub data PeerCall : Type 0 where
  add_peer : ℕ → List Text → PeerCall
  remove_peer : ℕ → PeerCall

pub record RaftNode : Type 0 where
  pub id : ℕ
  pub conf_state : ConfState
  pub applied_index : ℕ
  pub raft : Raft
  pub calls : List PeerCall

unfoldable pub entries_to_apply : ℕ → List Entry → Fallible (List Entry)
entries_to_apply applied [] = ok []
entries_to_apply applied (e ∷ es) =
    let skip = add64 (sub64 applied e.index) 1 in
    if ltb (add64 applied 1) e.index
    then panic fatal
    else if ltb skip (length (e ∷ es))
    then sub_slice (e ∷ es) skip (length (e ∷ es))
    else ok []

abbrev pub bytes_of : Option Text → Text
bytes_of none = []
bytes_of (some t) = t

-- The data of a normal entry, unless it is empty.
abbrev pub proposal : Option Text → List Text
proposal none = []
proposal (some []) = []
proposal (some (c ∷ cs)) = (c ∷ cs) ∷ []

unfoldable pub call_peers : RaftNode → ConfChange → RaftNode × Bool
call_peers r cc = elim cc.typ [
  | add_node ↦ if length (bytes_of cc.context) == 0 then (r, true) else (
    record r { calls = r.calls ++ (add_peer cc.node_id (bytes_of cc.context ∷ []) ∷ []) },
    true,
  )
  | remove_node ↦
      if cc.node_id == r.id
      then (r, false)
      else (record r { calls = r.calls ++ (remove_peer cc.node_id ∷ []) }, true)
  | update_node ↦ (r, true)
  | add_learner_node ↦ (r, true)
  | other_type k ↦ (r, true)
]

-- What a round of the loop over the entries makes of the node, the data that it appends, and whether the
-- node stays in the cluster.
unfoldable pub publish_entry :
    (Option Text → ConfChange)
    → RaftNode
    → EntryType
    → Option Text
    → Fallible (RaftNode × List Text × Bool)
unfolding call_peers
publish_entry unmarshal r entry_normal payload = ok (r, proposal payload, true)
publish_entry unmarshal r entry_conf_change payload =
    let cc = unmarshal payload in
    apply_conf_change r.raft (as_v2 (v1 cc)) >>= λ s.
    let called = call_peers (record r { raft = s.0; conf_state = s.1 }) cc in
    ok (called.0, [], called.1)
publish_entry unmarshal r entry_conf_change_v2 payload = ok (r, [], true)

unfoldable pub publish_all :
    (Option Text → ConfChange) → RaftNode → List Entry → Fallible (RaftNode × List Text × Bool)
unfolding publish_entry
publish_all unmarshal r [] = ok (r, [], true)
publish_all unmarshal r (e ∷ es) = publish_entry unmarshal r e.typ e.payload >>= λ s.
    if s.2 then (publish_all unmarshal s.0 es >>= λ t. ok (t.0, s.1 ++ t.1, t.2)) else ok s

abbrev pub last_of : ℕ → List Entry → ℕ
last_of i [] = i
last_of i (e ∷ es) = last_of e.index es

-- The commit that is sent, and the result `ok`.
unfoldable pub publish_entries :
    (Option Text → ConfChange)
    → RaftNode
    → Bool
    → List Entry
    → Fallible (RaftNode × List Text × Bool)
unfolding publish_all
publish_entries unmarshal r taken [] = ok (r, [], true)
publish_entries unmarshal r taken (e ∷ es) = publish_all unmarshal r (e ∷ es) >>= λ s.
    let done = record (s.0) { applied_index = last_of e.index es } in
    if not s.2
    then ok (s.0, [], false)
    else if length s.1 == 0 || taken
    then ok (done, s.1, true)
    else ok (s.0, [], false)

-- The committed entries of one `Ready` of `serveChannels`.
unfoldable pub serve_committed :
    (Option Text → ConfChange)
    → RaftNode
    → Bool
    → List Entry
    → Fallible (RaftNode × List Text × Bool)
unfolding entries_to_apply publish_entries
serve_committed unmarshal r taken ents =
    entries_to_apply r.applied_index ents >>= publish_entries unmarshal r taken

-- The loop of `serveChannels`, over the committed entries of each `Ready`.
unfoldable pub serve_channels :
    (Option Text → ConfChange)
    → RaftNode
    → List (Bool × List Entry)
    → Fallible (RaftNode × List Text × Bool)
unfolding serve_committed
serve_channels unmarshal r [] = ok (r, [], true)
serve_channels unmarshal r ((taken, ents) ∷ more) = serve_committed unmarshal r taken ents >>= λ s.
    if s.2 then (serve_channels unmarshal s.0 more >>= λ t. ok (t.0, s.1 ++ t.1, t.2)) else ok s
