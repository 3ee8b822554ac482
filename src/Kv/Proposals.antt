-- ===== src/Kv/Proposals.antt =====
-- kv/raftNode.go: the goroutine of `serveChannels` that proposes what clients send, and the messages that are
-- given to the transport. An input comes with the turns of what happens while it is served; the context
-- of a proposal is never done.
use yyckv.Base.{
  Text, ℕ, suc, ◌≡◌, ◌≤◌, refl, ap, true, Option, none, some, List, [], ◌∷◌, ◌++◌, length, All, inl,
  inr, if◌then◌else◌, Fallible, ok, panic, nil_deref, unimplemented, ◌>>=◌, arith, Returns,
}
use yyckv.Pb.{ConfChange, ConfState, Message}
use yyckv.Http.{is_msg_snap}
use yyckv.Node.{Event}
use yyckv.Node.Callers.{Turn, propose, proposed}
pub mod Stuck

pub data Input : Type 0 where
  proposed_data : Text → Input
  proposed_change : ConfChange → Input
  data_closed change_closed : Input

-- `stuck`: a call of `Propose` does not return. `closed`: the loop is over, and `stopc` is closed.
pub data Ended : Type 0 where
  running stuck closed : Ended

unfoldable pub serve_inputs : ℕ → List (Input × List Turn) → Fallible (List Event × Ended)
serve_inputs fresh [] = ok ([], running)
serve_inputs fresh ((proposed_data d, ts) ∷ more) =
    let c = propose fresh (some d) ts in
    let rest = serve_inputs (suc fresh) more in
    elim c.returned [ none ↦ ok (c.sent, stuck) | some err ↦ rest >>= λ s. ok (c.sent ++ s.0, s.1) ]
serve_inputs fresh ((proposed_change cc, ts) ∷ more) = panic unimplemented
serve_inputs fresh ((data_closed, ts) ∷ more) = ok ([], closed)
serve_inputs fresh ((change_closed, ts) ∷ more) = ok ([], closed)

-- `ms[i].Snapshot` is a pointer.
unfoldable pub process_messages : ConfState → List Message → Fallible (List Message)
process_messages cs [] = ok []
process_messages cs (m ∷ ms) =
    (if is_msg_snap m.typ
      then elim m.snapshot [
        | none ↦ panic nil_deref
        | some s ↦ ok (record m {
          snapshot = some (record s { metadata = record (s.metadata) { conf_state = cs } });
        })
      ]
      else ok m)
    >>= λ m'. process_messages cs ms >>= λ ms'. ok (m' ∷ ms')
