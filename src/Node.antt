-- ===== src/Node.antt =====
-- raft/core/node.go: the loop of `run`, which serves the channels of a node. A round prepares what the
-- channels offer and serves one of those that are ready; `Event` says which, with the value that it receives.
-- A channel that is nil is never ready. The answers that go to the callers are in Node.Callers.
use yyckv.Base.{
  ℕ, Bool, true, false, not, none, some, List, [], ◌∷◌, lookup, contains, ◌==◌, ◌&&◌, ◌||◌,
  if◌then◌else◌, Fallible, ok, ◌>>=◌,
}
use yyckv.Pb.{Message, ConfChangeV2, ConfState}
use yyckv.Util.{is_response_msg, is_local_msg_target}
use yyckv.Raft.{Raft}
use yyckv.Raft.Conf.{apply_conf_change}
use yyckv.Raft.Setup.{is_missing}
use yyckv.Raft.Step
use yyckv.RawNode.{RawNode, Ready, has_ready, ready_without_accept, accept_ready, advance, tick}
pub mod Handshake
pub mod Status
pub mod Start
pub mod Callers

-- `offers` tells that `readyc` is not nil, `accepted` that `advancec` is not, and `proposes` that `propc`
-- is not.
pub record Loop : Type 0 where
  pub rn : RawNode
  pub rd : Ready
  pub offers : Bool
  pub accepted : Bool
  pub proposes : Bool
  pub lead : ℕ

pub data Event : Type 0 where
  proposal : Message → Event
  receipt : Message → Event
  conf_change : ConfChangeV2 → Event
  clock : Event
  ready_taken : Event
  advanced : Event
  status_asked : Event

abbrev pub no_ready : Ready
no_ready = record { entries = []; committed_entries = []; messages = [] }

abbrev pub start_loop : RawNode → Loop
start_loop rn = record {
  rn = rn;
  rd = no_ready;
  offers = false;
  accepted = false;
  proposes = false;
  lead = 0;
}

unfoldable pub offer : Loop → Fallible Loop
offer l =
    if not l.accepted && has_ready l.rn
    then (ready_without_accept l.rn >>= λ rd. ok (record l { rd = rd; offers = true }))
    else ok l

unfoldable pub follow_leader : Loop → Loop
follow_leader l =
    if l.lead == l.rn.raft.lead
    then l
    else record l { proposes = not (l.rn.raft.lead == 0); lead = l.rn.raft.lead }

-- The loop up to the `select`.
unfoldable pub prepare : Loop → Fallible Loop
unfolding offer follow_leader
prepare l = offer l >>= λ l'. ok (follow_leader l')

unfoldable pub is_ready : Loop → Event → Bool
is_ready l (proposal m) = l.proposes
is_ready l ready_taken = l.offers
is_ready l advanced = l.accepted
is_ready l _ = true

abbrev pub with_raft : Loop → Raft → Loop
with_raft l r = record l { rn = record (l.rn) { raft = r } }

abbrev pub is_left_out : ConfState → ℕ → Bool
is_left_out cs id = not (contains cs.voters id || contains cs.voters_outgoing id)

unfoldable pub change_conf : Loop → ConfChangeV2 → Fallible Loop
change_conf l cc =
    let r = l.rn.raft in
    apply_conf_change r cc >>= λ s.
    let removed =
      not (is_missing (lookup r.trk.progress r.id))
      && is_missing (lookup s.0.trk.progress r.id)
      && is_left_out s.1 r.id in
    ok (record (with_raft l s.0) { proposes = l.proposes && not removed })

unfoldable pub take_ready : Loop → Fallible Loop
take_ready l = accept_ready l.rn >>= λ rn. ok (
    if l.rn.async_storage_writes
    then record l { rn = rn; rd = no_ready; offers = false }
    else record l { rn = rn; accepted = true; offers = false })

-- The case of the `select`.
unfoldable pub serve : Loop → Event → Fallible Loop
unfolding change_conf take_ready
serve l (proposal m) =
    Step.step l.rn.raft (record m { from = l.rn.raft.id }) >>= λ s. ok (with_raft l s.0)
serve l (receipt m) =
    if is_response_msg m.typ
      && not (is_local_msg_target m.from)
      && is_missing (lookup l.rn.raft.trk.progress m.from)
    then ok l
    else (Step.step l.rn.raft m >>= λ s. ok (with_raft l s.0))
serve l (conf_change cc) = change_conf l cc
serve l clock = tick l.rn >>= λ rn. ok (record l { rn = rn })
serve l ready_taken = take_ready l
serve l advanced = advance l.rn >>= λ rn. ok (record l { rn = rn; rd = no_ready; accepted = false })
serve l status_asked = ok l

-- The rounds that the events make. An event on a channel that is not ready does not happen.
unfoldable pub run : Loop → List Event → Fallible Loop
unfolding prepare is_ready serve
run l [] = ok l
run l (e ∷ es) =
    prepare l >>= λ l'. (if is_ready l' e then serve l' e else ok l') >>= λ l''. run l'' es
