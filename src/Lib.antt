-- ===== src/Lib.antt =====
-- A Raft key-value store in Go, and what is proved of its Raft core and its store.
--
-- The program. raft/core is a port of the etcd Raft library that is partly written: `raft` (raft.go) is
-- the state machine of one node, over a log (log.go) that joins a storage (storage.go) and the entries
-- that are not stored yet (log_unstable.go), a tracker of the other nodes (tracker/), configurations and
-- votes (quorum/) and their changes (confchange/). RawNode (rawnode.go, bootstrap.go) is the interface
-- through which an application drives a node. The application is in kv/: raftNode (raftNode.go) drives a
-- node and publishes the data of committed entries, and Kvstore (kvstore.go) keeps the map.
--
-- The model, a module for each part:
--   Base          lists, maps, Go values that may panic (`Fallible`), 64-bit words (Base.Word), and of
--                 Go's library the numerals of strconv (Base.Numerals) and the words of strings (Base.Words)
--   Pb            raft/raftpb: messages, entries and their sizes, configuration changes, with
--                 Pb.ChangeText for their text and Pb.Marshal for pbutils.go
--   Storage       raft/core/storage.go: the interface with its contract, and MemoryStorage
--   Unstable      raft/core/log_unstable.go
--   Util          raft/core/util.go
--   Log           raft/core/log.go: Log.Ranges has the reads of ranges
--   Quorum        raft/core/quorum: sets of identifiers, results of votes
--   Tracker       raft/core/tracker
--   ConfChange    raft/core/confchange
--   Raft          raft/core/raft.go: Send, Become (the roles), Campaign, Follower, Candidate, Leader,
--                 Replicate, Step, Tick, Conf and Setup
--   RawNode       raft/core/rawnode.go, with RawNode.Bootstrap for bootstrap.go
--   Cluster       nodes that a network and an application drive through RawNode, as a relation `Move`
--                 on the nodes and the messages that were sent: a tick, a message that arrives, a
--                 `Ready` that is handed over, an `Advance`
--   Node          raft/core/node.go: the loop of `run`, as rounds that serve one event each, with
--                 Node.Callers for the methods that send to it and wait, Node.Start for the start, and
--                 Node.Status for status.go
--   Http          raft/http: the picker of URLs (urlpick.go), and `pick` and `send` of peer.go, with
--                 Http.Pipeline (pipeline.go, peer_status.go, the response in util.go), Http.Transport
--                 (transport.go, remote.go, the start and pause of a peer) and Http.Handler (http.go,
--                 the headers in util.go, raft/models/id.go), Http.Body (raft/utils/ioutil.go),
--                 Http.Versions (the types of streams and versions in stream.go and util.go) and
--                 Http.Dialing (tls.go, timeout_transport.go)
--   Models        raft/models/urls.go
--   Logger        raft/log/logger.go
--   Kv            kv/raftNode.go: the application of committed entries, with Kv.Start for the start of a node,
--                 Kv.Proposals for the goroutine that proposes, Kv.Ready for a whole `Ready` and Kv.Stop for
--                 the end of a node; Kv.Store is kv/kvstore.go
--   HttpApi       httpapi.go: the handlers of the requests of clients
-- A call that waits is given the turns of what happens meanwhile, and a pipeline the turns of its handlers.
-- The other children hold proofs. Those on elections compare a node with `Ballots`, the votes of all the
-- nodes over the whole run (Raft.Ballots), through the part of its state that elections read (Raft.Face).
-- A method that changes its receiver returns the new record; a Go function that may panic returns a
-- `Fallible`, whose `Fault` says how it panics; `Returns` states that a call returns with a property,
-- `Yields` that it panics or returns with it. A map is an association list, but for the data of the store,
-- which is a function, and a set of identifiers is a list, or `none` for the nil map. `uint64` sums and
-- differences wrap.
--
-- Bounds. `bit_len` has fuel 64, the width of a word. The loop of `stepLeader` that sends while there is
-- more to send has fuel 2, of which it uses one: a follower has just moved to StateReplicate, or was in
-- it, when the loop is reached, and in StateSnapshot an append with entries panics.
--
-- Not modelled: the log calls of the core, except where building a log line reads the log and may panic; the
-- generated marshalling, which is a parameter (`Codec`); random numbers, a parameter (`Source`); gob, a
-- parameter of the store; the parsing of URLs, a parameter; connections, the HTTP servers, the router and the
-- command line, which are input and output; and the methods of the transport whose bodies are still to be
-- written. A cluster has no restarts and no changes of its configuration.
pub mod Base
pub mod Cluster
pub mod Kv
pub mod Models
pub mod Logger
pub mod Http
pub mod HttpApi
pub mod Node
pub mod Pb
pub mod Storage
pub mod Unstable
pub mod Util
pub mod Log
pub mod Quorum
pub mod Tracker
pub mod ConfChange
pub mod Raft
pub mod RawNode
mod Tests
