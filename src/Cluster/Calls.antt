-- ===== src/Cluster/Calls.antt =====
-- raft/core/rawnode.go: what the calls of an application make of the ballots.
use yyckv.Base.{
  ℕ, ◌+◌, ◌<◌, ◌≡◌, refl, sym, ◌∙◌, not, List, [], ◌∷◌, arith, All, All-append, Bool-cases, inl,
  inr, ◌&&◌, ◌==◌, subst, Yields, Yields-bind, Yields-map, Yields-if, Yields-both, length, lookup,
}
use yyckv.Base.Word.{modulus}
use yyckv.Util.{is_local_msg, is_response_msg, is_local_msg_target}
use yyckv.Pb.{Message}
use yyckv.Log.Ranges
use yyckv.Quorum.Joint.{JointConfig}
use yyckv.Raft.{Raft}
use yyckv.Raft.Setup.{is_missing}
use yyckv.Raft.Step
use yyckv.Raft.Step.{from_new_leader, is_vote}
use yyckv.Raft.Tick.{call_tick}
use yyckv.Raft.Step.Terms.{after}
use yyckv.Raft.Face.{Face, face}
use yyckv.Raft.Ballots.{Ballots, Honest, Later, Later-refl, Grows-trans, here}
use yyckv.Raft.Ballots.Election.{Grown}
use yyckv.Raft.Ballots.Handle.{Proper, Vouched, step-Grown}
use yyckv.RawNode.{
  RawNode, tick, step, ready, ready_without_accept, accept_ready, to_others, to_self, step_all,
  advance,
}
use yyckv.Cluster.Node.{
  Told, Queued, Queued-Later, released-Told, others-Told, self-Queued, durable_plain,
}
use yyckv.Cluster.Ticks.{tick-Grown}

-- The node `k` of a cluster with the voters `voters`.
abbrev pub Sound : Ballots → JointConfig → ℕ → RawNode → Type 0
Sound b voters k rn =
    (rn.raft.id ≡ k)
    × (rn.raft.trk.config.voters ≡ voters)
    × Honest b (face rn.raft)
    × All (Queued b k) rn.steps_on_advance

-- The node `k` becomes `rn`, casts ballots on the way, and sends messages.
abbrev pub Acts : Ballots → JointConfig → ℕ → RawNode → List Message → Type 0
Acts b voters k rn ms = (b' : Ballots) × Later k b b' × Sound b' voters k rn × All (Told b') ms

-- What the node `r` has become, with the messages to itself that it had.
acts :
    (b : Ballots) (voters : JointConfig) (k : ℕ) (rn : RawNode) (r : Raft)
    → Sound b voters k rn
    → Grown b rn.raft r
    → Acts b voters k (record rn { raft = r }) []
acts b voters k rn r (id, same, h, q) (i, v, (c, l, g)) =
    let later : Later k b c = subst (λ n. Later n b c) id l in
    (c, later, (i ∙ id, v ∙ same, g, Queued-Later k b c k rn.steps_on_advance later q), tt)

-- No term on the way reaches the last word.
abbrev pub Roomy : Raft → List Message → Type 0
Roomy r [] = r.term + 1 < modulus
Roomy r (m ∷ ms) =
    (r.term + 1 < modulus) × (m.term + 1 < modulus) × Yields (Step.step r m) λ s. Roomy s.0 ms

step_all-Grown :
    (b : Ballots) (r : Raft) (ms : List Message)
    → Roomy r ms
    → All (Queued b r.id) ms
    → Honest b (face r)
    → Yields (step_all r ms) (Grown b r)
unfolding step_all
step_all-Grown b r [] room q h = here b (face r) h
step_all-Grown b r (m ∷ ms) room q h =
    let plain = durable_plain m.typ q.0.0 in
    let proper : Proper m =
      (room.1, λ e. absurd (ground (arith, e, plain)), λ e. absurd (ground (arith, e, plain))) in
    Yields-bind (Step.step r m) _ (λ s. Grown b r s.0 × Roomy s.0 ms) (Grown b r)
      (Yields-both (Step.step r m) _ _ (step-Grown b r m room.0 proper q.0.1 h) room.2)
      λ s ((i, v, (c, l, k)), more).
        Yields-map (step_all s.0 ms) (Grown c s.0) (Grown b r)
          (step_all-Grown c s.0 ms more
            (subst (λ n. All (Queued c n) ms) (sym i) (Queued-Later r.id b c r.id ms l q.1)) k)
          λ x g. Grows-trans b c (face r) (face s.0) (face x) i v l g

idle :
    (b : Ballots) (voters : JointConfig) (k : ℕ) (rn : RawNode)
    → Sound b voters k rn
    → Acts b voters k rn []
idle b voters k rn s = (b, Later-refl k b, s, tt)

pub tick-Acts :
    (b : Ballots) (voters : JointConfig) (k : ℕ) (rn : RawNode)
    → rn.raft.term + 1 < modulus
    → Sound b voters k rn
    → Yields (tick rn) λ rn'. Acts b voters k rn' []
unfolding tick
tick-Acts b voters k rn room s =
    Yields-bind (call_tick rn.raft.tick rn.raft) _ (Grown b rn.raft) _
      (tick-Grown b rn.raft.tick rn.raft room s.2) λ r g. acts b voters k rn r s g

pub step-Acts :
    (b : Ballots) (voters : JointConfig) (k : ℕ) (rn : RawNode) (m : Message)
    → rn.raft.term + 1 < modulus
    → Proper m
    → Vouched b k m
    → Sound b voters k rn
    → Yields (step rn m) λ s. Acts b voters k s.0 []
unfolding step
step-Acts b voters k rn m room proper vouched s =
    Yields-if (is_local_msg m.typ && not (is_local_msg_target m.from)) _ _ _ (idle b voters k rn s)
      (Yields-if
        (is_response_msg m.typ
          && not (is_local_msg_target m.from)
          && is_missing (lookup rn.raft.trk.progress m.from))
        _ _ _ (idle b voters k rn s)
        (Yields-bind (Step.step rn.raft m) _ (λ x. Grown b rn.raft x.0) _
          (step-Grown b rn.raft m room proper (λ g. let (c, to) = vouched g in (c, to ∙ sym s.0))
            s.2)
          λ x g. acts b voters k rn x.0 s g))

pub advance-Acts :
    (b : Ballots) (voters : JointConfig) (k : ℕ) (rn : RawNode)
    → Roomy rn.raft rn.steps_on_advance
    → Sound b voters k rn
    → Yields (advance rn) λ rn'. Acts b voters k rn' []
unfolding advance
advance-Acts b voters k rn room s = Yields-if rn.async_storage_writes _ _ _ tt (
    Yields-bind (step_all rn.raft rn.steps_on_advance) _ (Grown b rn.raft) _
      (step_all-Grown b rn.raft rn.steps_on_advance room
        (subst (λ n. All (Queued b n) rn.steps_on_advance) (sym s.0) s.3) s.2)
      λ r g. acts b voters k (record rn { steps_on_advance = [] }) r (s.0, s.1, s.2, tt) g)

-- Once its messages are handed over, the node has none.
emptied : (b : Ballots) (f : Face) → Honest b f → Honest b (record f { grants = []; released = [] })
emptied b f h = record {
  some_id = h.some_id;
  own = h.own;
  ahead = h.ahead;
  granted = tt;
  sealed = refl;
  counted = h.counted;
  elected = h.elected;
}

messages-Told :
    (b : Ballots) (rn : RawNode)
    → Honest b (face rn.raft)
    → Yields (ready_without_accept rn) λ rd. All (Told b) rd.messages
unfolding ready_without_accept
messages-Told b rn h = after (Ranges.next_unstable_ents rn.raft.raft_log) _ _ λ ents.
    after (Ranges.next_committed_ents rn.raft.raft_log _) _ _ λ committed.
      let at_once = released-Told b rn.raft.msgs h.sealed in
      elim (Bool-cases rn.async_storage_writes) [
        | inl async ↦ rw async at_once
        | inr waits ↦ rw waits (
            All-append _ rn.raft.msgs (to_others rn.raft.id rn.raft.msgs_after_append) at_once
              (others-Told b rn.raft.id rn.raft.msgs_after_append h.granted))
      ]

accept_ready-Sound :
    (b : Ballots) (voters : JointConfig) (k : ℕ) (rn : RawNode)
    → Sound b voters k rn
    → Yields (accept_ready rn) (Sound b voters k)
unfolding accept_ready
accept_ready-Sound b voters k rn s =
    let bare = emptied b (face rn.raft) s.2 in
    Yields-if rn.async_storage_writes _ _ _ (s.0, s.1, bare, s.3)
      (Yields-if (length rn.steps_on_advance == 0) _ _ _
        (
          s.0,
          s.1,
          bare,
          subst (λ n. All (Queued b k) (to_self n rn.raft.msgs_after_append)) (sym s.0)
              (self-Queued b k rn.raft.msgs_after_append s.2.granted),
        )
        tt)

pub ready-Acts :
    (b : Ballots) (voters : JointConfig) (k : ℕ) (rn : RawNode)
    → Sound b voters k rn
    → Yields (ready rn) λ s. Acts b voters k s.0 s.1.messages
unfolding ready
ready-Acts b voters k rn s =
    Yields-bind (ready_without_accept rn) _ _ _ (messages-Told b rn s.2) λ rd told.
      Yields-bind (accept_ready rn) _ _ _ (accept_ready-Sound b voters k rn s)
        λ rn' s'. (b, Later-refl k b, s', told)
