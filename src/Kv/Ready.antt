-- ===== src/Kv/Ready.antt =====
-- kv/raftNode.go: the case of `serveChannels` for a `Ready`, over the storage and the transport that the node
-- shares with its log and its peers. `new_urls` is `NewURLs`.
use yyckv.Base.{Text, ℕ, Bool, Option, List, [], ◌∷◌, Fallible, ok, ◌>>=◌}
use yyckv.Pb.{ConfChange}
use yyckv.Raft.{Raft}
use yyckv.Storage.Memory.{MemoryStorage, as_storage}
use yyckv.Storage.Memory
use yyckv.RawNode.{Ready}
use yyckv.Http.Transport.{Transport}
use yyckv.Http.Transport
use yyckv.Kv.{RaftNode, PeerCall, add_peer, remove_peer, serve_committed}
use yyckv.Kv.Proposals.{process_messages}
pub mod Effects

pub record App (U : Type 0) : Type 0 where
  pub node : RaftNode
  pub storage : MemoryStorage
  pub transport : Transport U

-- The log of the node reads the storage.
abbrev pub with_storage : RaftNode → MemoryStorage → RaftNode
with_storage r m = record r {
  raft = record (r.raft) { raft_log = record (r.raft.raft_log) { storage = as_storage m } };
  calls = [];
}

module _ {U : Type 0} (new_urls : List Text → Option (List U)) where
  -- The calls that the published changes make.
  unfoldable pub call_transport : Transport U → List PeerCall → Fallible (Transport U)
  call_transport t [] = ok t
  call_transport t (add_peer id us ∷ calls) =
      Transport.add_peer new_urls t id us >>= λ t'. call_transport t' calls
  call_transport t (remove_peer id ∷ calls) = call_transport (Transport.remove_peer t id) calls

  -- With the data that is published, and whether the loop goes on.
  unfoldable pub serve_ready :
      (Option Text → ConfChange) → App U → Bool → Ready → Fallible (App U × List Text × Bool)
  unfolding call_transport
  serve_ready unmarshal app taken rd = Memory.append app.storage rd.entries >>= λ m.
      process_messages app.node.conf_state rd.messages >>= λ ms.
      let t = Transport.send app.transport ms in
      serve_committed unmarshal (with_storage app.node m) taken rd.committed_entries >>= λ s.
      call_transport t s.0.calls >>= λ t'.
      ok (record { node = s.0; storage = m; transport = t' }, s.1, s.2)
