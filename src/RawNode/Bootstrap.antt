-- ===== src/RawNode/Bootstrap.antt =====
-- raft/core/bootstrap.go: `Bootstrap`, which starts a cluster with a given membership.
use yyckv.Base.{
  ℕ, suc, Option, none, some, List, [], ◌∷◌, length, ◌==◌, if◌then◌else◌, Fallible, ok, ◌>>=◌,
}
use yyckv.Pb.{Entry, entry_conf_change, ConfChange, add_node, v1, as_v2}
use yyckv.Log
use yyckv.Storage.{found, failed}
use yyckv.Raft.{Raft, Codec}
use yyckv.Raft.Become.{become_follower}
use yyckv.Raft.Conf.{apply_conf_change}
use yyckv.RawNode.{RawNode}

pub record Peer : Type 0 where
  pub id : ℕ
  pub context : Option (List ℕ)

pub data BootstrapError : Type 0 where
  no_peers storage_failed nonempty_storage marshal_failed : BootstrapError

abbrev join_change : Peer → ConfChange
join_change p = record { typ = add_node; node_id = p.id; context = p.context; id = 0 }

abbrev probe_change : Peer → ConfChange
probe_change p = record { typ = add_node; node_id = p.id; context = none; id = 0 }

abbrev cons_entry : ℕ → List ℕ → Option (List Entry) → Option (List Entry)
cons_entry i bytes none = none
cons_entry i bytes (some es) =
    some (record { term = 1; index = i; typ = entry_conf_change; payload = some bytes } ∷ es)

-- The entries from index `i` on; `none` is an error of the marshalling.
unfoldable pub join_entries : Codec → ℕ → List Peer → Option (List Entry)
join_entries c i [] = some []
join_entries c i (p ∷ ps) =
    let rest = join_entries c (suc i) ps in
    elim (c.marshal_v1 (join_change p)) [ none ↦ none | some bytes ↦ cons_entry i bytes rest ]

unfoldable pub join_all : List Peer → Raft → Fallible Raft
join_all [] r = ok r
join_all (p ∷ ps) r = apply_conf_change r (as_v2 (v1 (probe_change p))) >>= λ s. join_all ps s.0

abbrev joined :
    RawNode → Raft → List Peer → Option (List Entry) → Fallible (RawNode × Option BootstrapError)
unfolding join_all
joined rn r peers none = ok (record rn { raft = r }, some marshal_failed)
joined rn r peers (some es) = Log.append r.raft_log es >>= λ s.
    join_all peers (record r { raft_log = record (s.0) { committed = length es } }) >>= λ r'.
    ok (record rn { raft = r' }, none)

unfoldable pub bootstrap : RawNode → List Peer → Fallible (RawNode × Option BootstrapError)
unfolding join_entries join_all
bootstrap rn peers =
    if length peers == 0
    then ok (rn, some no_peers)
    else (rn.raft.raft_log.storage.last_index >>= elim [
      | failed e ↦ ok (rn, some storage_failed)
      | found last ↦
          if last == 0
          then (become_follower rn.raft 1 0 >>= λ r.
              joined rn r peers (join_entries r.codec 1 peers))
          else ok (rn, some nonempty_storage)
    ])
