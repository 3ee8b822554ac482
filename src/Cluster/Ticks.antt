-- ===== src/Cluster/Ticks.antt =====
-- raft/core/raft.go: a tick keeps a node honest.
use yyckv.Base.{
  suc, ◌⊎◌, ◌+◌, ◌<◌, ◌≡◌, refl, arith, inl, inr, ◌&&◌, ◌>>=◌, Yields, Yields-bind, Yields-if, leb,
  ok,
}
use yyckv.Base.Word.{modulus}
use yyckv.Pb.{MessageType, msg_beat, msg_check_quorum, msg_hup}
use yyckv.Raft.{
  Raft, StepFunc, step_follower, step_candidate, step_leader, is_leader, TickFunc, tick_election,
  tick_heartbeat,
}
use yyckv.Raft.Step
use yyckv.Raft.Step.{from_new_leader, is_vote}
use yyckv.Raft.Tick.{
  local_message, call_tick, on_tick_election, on_tick_heartbeat, check_leadership, beat,
  past_election_timeout,
}
use yyckv.Raft.Step.Terms.{chain}
use yyckv.Raft.Step.Handlers.{follower_on-Steady, leader_on-Steady}
use yyckv.Raft.Candidate.{candidate_on}
use yyckv.Raft.Campaign.{promotable}
use yyckv.Raft.Face.{face, Steady}
use yyckv.Raft.Ballots.{Ballots, Honest, here}
use yyckv.Raft.Ballots.Election.{Grown, calmly}
use yyckv.Raft.Ballots.Handle.{step-Grown}

-- The two reminders of a leader change nothing that elections depend on.
reminder-Steady :
    (f : StepFunc) (t : MessageType) (r : Raft)
    → (t ≡ msg_beat) ⊎ (t ≡ msg_check_quorum)
    → Yields (Step.call_step f r (local_message t r.id)) λ s. Steady r s.0
unfolding Step.call_step candidate_on
reminder-Steady step_follower t r known = follower_on-Steady t r (local_message t r.id) refl
reminder-Steady step_candidate t r (inl e) = rw e refl
reminder-Steady step_candidate t r (inr e) = rw e refl
reminder-Steady step_leader t r known = leader_on-Steady t r (local_message t r.id)

remind-Steady :
    (t : MessageType) (r : Raft)
    → (t ≡ msg_beat) ⊎ (t ≡ msg_check_quorum)
    → Yields (Step.step r (local_message t r.id) >>= λ s. ok s.0) (Steady r)
unfolding Step.step Step.dispatch
remind-Steady t r (inl e) = rw e (
    Yields-bind (Step.call_step r.step r (local_message msg_beat r.id)) _ _ (Steady r)
      (reminder-Steady r.step msg_beat r (inl refl)) λ s k. k)
remind-Steady t r (inr e) = rw e (
    Yields-bind (Step.call_step r.step r (local_message msg_check_quorum r.id)) _ _ (Steady r)
      (reminder-Steady r.step msg_check_quorum r (inr refl)) λ s k. k)

heartbeat-Steady : (r : Raft) → Yields (on_tick_heartbeat r) (Steady r)
unfolding on_tick_heartbeat check_leadership beat
heartbeat-Steady r =
    chain r _ beat
      (Yields-if (leb r.election_timeout (suc r.election_elapsed)) _ _ _
        (Yields-if r.check_quorum _ _ _ (remind-Steady msg_check_quorum _ (inr refl)) refl) refl)
      λ a.
        Yields-if (is_leader a.state && leb a.heartbeat_timeout a.heartbeat_elapsed) _ _ _
          (remind-Steady msg_beat _ (inl refl)) refl

pub tick-Grown :
    (b : Ballots) (t : TickFunc) (r : Raft)
    → r.term + 1 < modulus
    → Honest b (face r)
    → Yields (call_tick t r) (Grown b r)
unfolding call_tick on_tick_election
tick-Grown b tick_election r room h =
    let r₁ = record r { election_elapsed = suc r.election_elapsed } in
    Yields-if (promotable r₁ && past_election_timeout r₁) _ _ _
      (Yields-bind (Step.step (record r₁ { election_elapsed = 0 }) (local_message msg_hup r.id)) _ _
        (Grown b r)
        (step-Grown b (record r₁ { election_elapsed = 0 }) (local_message msg_hup r.id) room
          (omega arith, λ e. absurd (ground arith), λ e. absurd (ground arith))
          (λ g. absurd (ground arith)) h)
        λ s g. g)
      (here b (face r) h)
tick-Grown b tick_heartbeat r room h = calmly b r _ h (heartbeat-Steady r)
