-- ===== src/Node/Start.antt =====
-- raft/core/node.go: the start of a node, up to its goroutine, and `Stop`.
use yyckv.Base.{
  Bool, true, false, List, [], ◌∷◌, length, ◌==◌, if◌then◌else◌, Fallible, ok, panic, raised, ◌>>=◌,
}
use yyckv.Raft.{Source, Codec}
use yyckv.Raft.Setup.{Config}
use yyckv.RawNode.{new_raw_node}
use yyckv.RawNode.Bootstrap.{Peer, bootstrap}
use yyckv.Node.{Loop, start_loop}

-- An error of `Bootstrap` is only logged.
unfoldable pub setup_node : Config → Source → Codec → List Peer → Fallible Loop
setup_node c random codec peers =
    if length peers == 0
    then panic raised
    else (new_raw_node c random codec >>= λ rn. bootstrap rn peers >>= λ s. ok (start_loop s.0))

abbrev pub start_node : Config → Source → Codec → List Peer → Fallible Loop
start_node c random codec peers = setup_node c random codec peers

abbrev pub restart_node : Config → Source → Codec → Fallible Loop
restart_node c random codec = new_raw_node c random codec >>= λ rn. ok (start_loop rn)

-- What happens while `Stop` waits: `run` takes the request, or `done` is closed.
pub data StopTurn : Type 0 where
  stop_taken done_closed : StopTurn

-- Whether `Stop` returns.
unfoldable pub stop : List StopTurn → Bool
stop [] = false
stop (done_closed ∷ ts) = true
stop (stop_taken ∷ ts) = acknowledged ts
  where
    acknowledged : List StopTurn → Bool
    acknowledged [] = false
    acknowledged (done_closed ∷ us) = true
    acknowledged (stop_taken ∷ us) = acknowledged us
