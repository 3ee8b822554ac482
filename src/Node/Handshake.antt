-- ===== src/Node/Handshake.antt =====
-- raft/core/node.go: what a round of `run` may rely on.
use yyckv.Base.{
  ◌≡◌, ◌≢◌, refl, ◌∙◌, subst, Bool, true, false, List, [], ◌∷◌, Bool-cases, inl, inr, arith, ok,
  length, ◌==◌, ◌&&◌, not, Yields, Yields-bind, Yields-if, Yields-test, Returns,
}
use yyckv.Pb.{Message}
use yyckv.Base.{if◌then◌else◌}
use yyckv.Raft.Setup.{is_missing}
use yyckv.Util.{is_response_msg, is_local_msg_target}
use yyckv.Raft.Conf.{apply_conf_change}
use yyckv.Raft.Step
use yyckv.Raft.Step.Terms.{after}
use yyckv.Raft.Tick.{call_tick}
use yyckv.RawNode.{RawNode, has_ready, ready_without_accept, accept_ready, advance, tick, step_all}
use yyckv.Node.{
  Loop, Event, proposal, receipt, conf_change, clock, ready_taken, advanced, status_asked,
  start_loop, offer, follow_leader, prepare, is_ready, change_conf, take_ready, serve, run,
}

-- A `Ready` is offered only when none is accepted, and then the node holds no messages to itself; none is
-- accepted when the storage writes are asynchronous; and proposals are taken only with a leader.
pub record IsSound (l : Loop) : Type 0 where
  pub drained : l.accepted ≡ false → l.rn.steps_on_advance ≡ []
  pub waits : l.accepted ≡ true → l.rn.async_storage_writes ≡ false
  pub turns : l.offers ≡ true → l.accepted ≡ false
  pub led : l.proposes ≡ true → l.lead ≢ 0

offer-IsSound : (l : Loop) → IsSound l → Yields (offer l) IsSound
unfolding offer
offer-IsSound l h =
    Yields-test (not l.accepted && has_ready l.rn) _ _ _
      (λ free. after (ready_without_accept l.rn) _ _ λ rd. record {
        drained = h.drained;
        waits = h.waits;
        turns = λ o. ground (arith, free);
        led = h.led;
      })
      λ busy. h

abbrev IsPrepared : Loop → Type 0
IsPrepared l = IsSound l × (l.lead ≡ l.rn.raft.lead)

follow_leader-IsPrepared : (l : Loop) → IsSound l → IsPrepared (follow_leader l)
unfolding follow_leader
follow_leader-IsPrepared l h = elim (Bool-cases (l.lead == l.rn.raft.lead)) [
  | inl same ↦ rw same (h, ground (arith, same))
  | inr new ↦ rw new (
    record { drained = h.drained; waits = h.waits; turns = h.turns; led = λ p. ground (arith, p) },
    refl,
  )
]

prepare-IsPrepared : (l : Loop) → IsSound l → Yields (prepare l) IsPrepared
unfolding prepare
prepare-IsPrepared l h =
    Yields-bind (offer l) _ IsSound IsPrepared (offer-IsSound l h) follow_leader-IsPrepared

serve-IsSound :
    (l : Loop) (e : Event) → is_ready l e ≡ true → IsSound l → Yields (serve l e) IsSound
unfolding serve is_ready change_conf take_ready accept_ready advance tick
serve-IsSound l (proposal m) ready h =
    after (Step.step l.rn.raft _) _ _
      λ s. record { drained = h.drained; waits = h.waits; turns = h.turns; led = h.led }
serve-IsSound l (receipt m) ready h =
    Yields-if (is_response_msg m.typ && not (is_local_msg_target m.from) && is_missing _) _ _ _ h (
      after (Step.step l.rn.raft m) _ _
        λ s. record { drained = h.drained; waits = h.waits; turns = h.turns; led = h.led })
serve-IsSound l (conf_change cc) ready h = after (apply_conf_change l.rn.raft cc) _ _ λ s. record {
  drained = h.drained;
  waits = h.waits;
  turns = h.turns;
  led = λ p. h.led (ground (arith, p));
}
serve-IsSound l clock ready h =
    Yields-bind (tick l.rn) _
      (λ rn.
        (rn.steps_on_advance ≡ l.rn.steps_on_advance)
        × (rn.async_storage_writes ≡ l.rn.async_storage_writes))
      _ (after (call_tick l.rn.raft.tick l.rn.raft) _ _ λ r. (refl, refl))
      λ rn k. record {
        drained = λ a. k.0 ∙ h.drained a;
        waits = λ a. k.1 ∙ h.waits a;
        turns = h.turns;
        led = h.led;
      }
serve-IsSound l ready_taken ready h = takes l.rn.async_storage_writes refl
  where
    takes : (b : Bool) → l.rn.async_storage_writes ≡ b → Yields (take_ready l) IsSound
    takes true e = rw e (record {
      drained = λ a. h.drained (h.turns ready);
      waits = λ a. absurd (ground (arith, a, h.turns ready));
      turns = λ o. absurd (ground (arith, o));
      led = h.led;
    })
    takes false e = elim (Bool-cases (length l.rn.steps_on_advance == 0)) [
      | inl free ↦
          rw (e, free)
            (record {
              drained = λ a. absurd (ground (arith, a));
              waits = λ a. refl;
              turns = λ o. absurd (ground (arith, o));
              led = h.led;
            })
      | inr full ↦ rw (e, full) tt
    ]
serve-IsSound l advanced ready h =
    Yields-bind (advance l.rn) _ (λ rn. rn.steps_on_advance ≡ []) _
      (Yields-if l.rn.async_storage_writes _ _ _ tt
        (after (step_all l.rn.raft l.rn.steps_on_advance) _ _ λ r. refl))
      λ rn k. record {
        drained = λ a. k;
        waits = λ a. absurd (ground (arith, a));
        turns = λ o. refl;
        led = h.led;
      }
serve-IsSound l status_asked ready h = h

run-IsSound : (l : Loop) (es : List Event) → IsSound l → Yields (run l es) IsSound
unfolding run
run-IsSound l [] h = h
run-IsSound l (e ∷ es) h =
    Yields-bind (prepare l) _ IsPrepared IsSound (prepare-IsPrepared l h) λ p k.
      Yields-bind (if is_ready p e then serve p e else ok p) _ IsSound IsSound
        (Yields-test (is_ready p e) (serve p e) (ok p) IsSound
          (λ ready. serve-IsSound p e ready k.0) λ idle. k.0)
        λ q g. run-IsSound q es g

start-IsSound : (rn : RawNode) → rn.steps_on_advance ≡ [] → IsSound (start_loop rn)
start-IsSound rn e = record {
  drained = λ a. e;
  waits = λ a. absurd (ground (arith, a));
  turns = λ o. refl;
  led = λ p. absurd (ground (arith, p));
}

reached :
    (rn : RawNode) (es : List Event) (l p : Loop)
    → rn.steps_on_advance ≡ []
    → run (start_loop rn) es ≡ ok l
    → prepare l ≡ ok p
    → IsPrepared p
reached rn es l p e ran prepared =
    subst (λ m. Yields m IsPrepared) prepared
      (prepare-IsPrepared l
        (subst (λ m. Yields m IsSound) ran (run-IsSound (start_loop rn) es (start-IsSound rn e))))

-- Whatever the loop of a node without messages to itself has served, a `Ready` that it offers can be taken:
-- `acceptReady` does not find that one was accepted without an `Advance`.
pub serve-ready_taken :
    (rn : RawNode) (es : List Event) (l p : Loop)
    → rn.steps_on_advance ≡ []
    → run (start_loop rn) es ≡ ok l
    → prepare l ≡ ok p
    → is_ready p ready_taken ≡ true
    → Returns
        (serve p ready_taken)
        λ q. (q.offers ≡ false) × (q.rn.raft.msgs ≡ []) × (q.rn.raft.msgs_after_append ≡ [])
unfolding serve take_ready accept_ready is_ready
serve-ready_taken rn es l p e ran prepared ready =
    let (sound, _) = reached rn es l p e ran prepared in
    let empty : p.rn.steps_on_advance ≡ [] = sound.drained (sound.turns ready) in
    let none_left : (length p.rn.steps_on_advance == 0) ≡ true = rw empty refl in
    elim (Bool-cases p.rn.async_storage_writes) [
      | inl async ↦ rw async (refl, refl, refl)
      | inr waits ↦ rw (waits, none_left) (refl, refl, refl)
    ]

-- Whatever the loop of a node without messages to itself has served, it takes a proposal only while its node
-- knows a leader.
pub serve-proposal :
    (rn : RawNode) (es : List Event) (l p : Loop) (m : Message)
    → rn.steps_on_advance ≡ []
    → run (start_loop rn) es ≡ ok l
    → prepare l ≡ ok p
    → is_ready p (proposal m) ≡ true
    → p.rn.raft.lead ≢ 0
unfolding is_ready
serve-proposal rn es l p m e ran prepared ready =
    let (sound, now) = reached rn es l p e ran prepared in λ z. sound.led ready (now ∙ z)
