-- ===== src/Kv/Start.antt =====
-- kv/raftNode.go: `startRaft`, up to the goroutines that serve the channels and HTTP. The identity of a node
-- is not negative; there is no log to replay, so the storage is new. `new_urls` is `NewURLs`.
use yyckv.Base.{
  Text, ℕ, zero, suc, ◌+◌, Bool, true, false, Option, none, some, List, [], ◌∷◌, ◌==◌,
  if◌then◌else◌, Fallible, ok, ◌>>=◌,
}
use yyckv.Raft.{Source, Codec}
use yyckv.Raft.Setup.{Config, pos}
use yyckv.RawNode.Bootstrap.{Peer}
use yyckv.Storage.Memory.{as_storage, new_memory_storage}
use yyckv.Node.{Loop}
use yyckv.Node.Start.{start_node, restart_node}
use yyckv.Http.Transport.{Transport, add_peer}
use yyckv.Http.Transport
pub mod Peers

-- The peer with the number `i` has the identity `i + 1`.
unfoldable pub raft_peers : ℕ → List Text → List Peer
raft_peers i [] = []
raft_peers i (s ∷ strs) = (record { id = suc i; context = none }) ∷ raft_peers (suc i) strs

unfoldable pub raft_config : ℕ → Config
raft_config id = record {
  id = id;
  election_tick = pos 10;
  heartbeat_tick = pos 1;
  storage = some (as_storage new_memory_storage);
  async_storage_writes = false;
  max_size_per_msg = 1048576;
  max_committed_size_per_ready = 0;
  max_uncommitted_entries_size = 1073741824;
  max_inflight_msgs = pos 256;
  max_inflight_bytes = 0;
  check_quorum = false;
  pre_vote = false;
}

module _ {U : Type 0} (new_urls : List Text → Option (List U)) where
  -- The loop over the peers, from the number `i` on.
  unfoldable pub add_peers : ℕ → ℕ → List Text → Transport U → Fallible (Transport U)
  add_peers id i [] t = ok t
  add_peers id i (s ∷ strs) t =
      (if suc i == id then ok t else add_peer new_urls t (suc i) (s ∷ [])) >>= λ t'.
      add_peers id (suc i) strs t'

  -- The two tests tell whether the round trippers can be made; an error of `Start` is not read.
  unfoldable pub start_transport : ℕ → List Text → Bool → Bool → Fallible (Transport U)
  unfolding add_peers
  start_transport id peers stream_rt pipeline_rt =
      let t : Transport U = record { has_logger = true; remotes = none; peers = none } in
      add_peers id 0 peers (Transport.start stream_rt pipeline_rt t).0

  unfoldable pub start_raft :
      ℕ → List Text → Bool → Source → Codec → Bool → Bool → Fallible (Loop × Transport U)
  unfolding raft_peers raft_config start_transport
  start_raft id peers join random codec stream_rt pipeline_rt =
      (if join
        then restart_node (raft_config id) random codec
        else start_node (raft_config id) random codec (raft_peers 0 peers))
      >>= λ l. start_transport id peers stream_rt pipeline_rt >>= λ t. ok (l, t)
