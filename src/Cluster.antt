-- ===== src/Cluster.antt =====
-- raft/core/rawnode.go: a cluster of nodes that an application and a network drive. The network and the
-- application may do whatever they like, but for the votes that are granted, which are delivered only if a node
-- has sent them, and to the node that they name; a message may be lost, doubled and late. A call that panics
-- ends the process of its node, which then takes no more steps; nodes do not start again.
use yyckv.Base.{ℕ, ◌+◌, ◌<◌, ◌≡◌, List, [], ◌++◌, ok, Option, if◌then◌else◌, ◌==◌, true, ◌∷◌, ◌⊎◌}
use yyckv.Base.Word.{modulus}
use yyckv.Pb.{Message}
use yyckv.Quorum.Joint.{JointConfig}
use yyckv.Raft.{RaftError, state_follower}
use yyckv.Raft.Face.{is_grant}
use yyckv.Raft.Ballots.Handle.{Proper}
use yyckv.RawNode.{RawNode, Ready, tick, step, ready, advance}
use yyckv.Cluster.Calls.{Roomy}
pub mod Node
pub mod Ticks
pub mod Calls
pub mod Safety

-- The node of an identity, and the messages that were sent, also those that were received since.
pub record Cluster : Type 0 where
  pub nodes : ℕ → RawNode
  pub sent : List Message

abbrev pub put : Cluster → ℕ → RawNode → List Message → Cluster
put c k rn ms = record { nodes = λ j. if j == k then rn else c.nodes j; sent = c.sent ++ ms }

abbrev pub IsSent : List Message → Message → Type 0
IsSent [] m = ⊥
IsSent (x ∷ xs) m = (x ≡ m) ⊎ IsSent xs m

-- One call of a node. Its term and those of the messages are below the last word.
pub data Move : Cluster → Cluster → Type 0 where
  ticks :
      (c : Cluster) (k : ℕ) (rn : RawNode)
      → 0 < k
      → (c.nodes k).raft.term + 1 < modulus
      → tick (c.nodes k) ≡ ok rn
      → Move c (put c k rn [])
  receives :
      (c : Cluster) (k : ℕ) (m : Message) (rn : RawNode) (e : Option RaftError)
      → 0 < k
      → (c.nodes k).raft.term + 1 < modulus
      → Proper m
      → (is_grant m ≡ true → IsSent c.sent m × (m.to ≡ k))
      → step (c.nodes k) m ≡ ok (rn, e)
      → Move c (put c k rn [])
  hands_over :
      (c : Cluster) (k : ℕ) (rn : RawNode) (rd : Ready)
      → 0 < k
      → ready (c.nodes k) ≡ ok (rn, rd)
      → Move c (put c k rn rd.messages)
  advances :
      (c : Cluster) (k : ℕ) (rn : RawNode)
      → 0 < k
      → Roomy (c.nodes k).raft (c.nodes k).steps_on_advance
      → advance (c.nodes k) ≡ ok rn
      → Move c (put c k rn [])

pub data Reaches : Cluster → Cluster → Type 0 where
  starts : (c : Cluster) → Reaches c c
  moves : (a b c : Cluster) → Reaches a b → Move b c → Reaches a c

-- A node that has taken no part in an election.
abbrev pub IsFresh : JointConfig → ℕ → RawNode → Type 0
IsFresh voters k rn =
    (rn.raft.id ≡ k)
    × (rn.raft.trk.config.voters ≡ voters)
    × (rn.raft.vote ≡ 0)
    × (rn.raft.state ≡ state_follower)
    × (rn.raft.msgs ≡ [])
    × (rn.raft.msgs_after_append ≡ [])
    × (rn.steps_on_advance ≡ [])

-- All the nodes are fresh, with the same voters, and nothing is sent.
abbrev pub IsStart : JointConfig → Cluster → Type 0
IsStart voters c = ((k : ℕ) → 0 < k → IsFresh voters k (c.nodes k)) × (c.sent ≡ [])
