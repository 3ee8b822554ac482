-- ===== src/Raft/Step/Vote.antt =====
-- raft/core/raft.go: `Step` never lowers the term, and casts one vote per term.
use yyckv.Base.{
  ◌+◌, ◌≤◌, ◌<◌, ◌≡◌, ◌≢◌, refl, true, false, ◌>>=◌, Yields, Yields-bind, Yields-map, Yields-if,
  Yields-test, Bool-cases, inl, inr, arith, ◌==◌, ltb, ◌||◌, ◌&&◌,
}
use yyckv.Base.Word.{modulus}
use yyckv.Util.{vote_resp_msg_type}
use yyckv.Pb.{
  msg_prop, msg_app, msg_heartbeat, msg_snap, msg_pre_vote_resp, msg_vote_resp, msg_hup, msg_vote,
  msg_pre_vote, msg_storage_append_resp, msg_storage_apply_resp, Message, MessageType,
}
use yyckv.Log
use yyckv.Raft.{Raft, is_pre_candidate, StepFunc, step_follower, step_candidate, step_leader}
use yyckv.Raft.Send.{send}
use yyckv.Raft.Become.{become_follower}
use yyckv.Raft.Leader.{leader_on}
use yyckv.Raft.Follower.{follower_on, fine}
use yyckv.Raft.Candidate.{candidate_on}
use yyckv.Raft.Step.{
  raise_term, on_lower_term, can_vote, cast_vote, refuse_vote, on_vote_request, call_step, dispatch,
  step, from_new_leader, from_old_leader, is_granted_pre_vote, is_vote, is_pre_vote,
}
use yyckv.Raft.Face.{Steady, send-Steady, is_vote_resp}
use yyckv.Raft.Step.Terms.{after}
use yyckv.Raft.Step.Handlers.{handle_heartbeat-Steady, follower_on-Steady, leader_on-Steady}
use yyckv.Raft.Step.Roles.{
  Follows, Follows-Steady, Follows-trans, steadily, moves, finely, become_follower-Follows, stays,
  hup-Follows, count_vote-Follows, send-same,
}

steps_down :
    (r : Raft) (m : Message)
    → r.term ≤ m.term
    → Yields (become_follower r m.term m.from >>= fine) λ s. Follows r s.0
steps_down r m h =
    Yields-bind (become_follower r m.term m.from) _ _ _ (become_follower-Follows r m.term m.from h)
      λ a k. k.0

candidate_on-Follows :
    (t : MessageType) (r : Raft) (m : Message)
    → r.term + 1 < modulus
    → (from_new_leader t ≡ true → r.term ≤ m.term)
    → Yields (candidate_on t r m) λ s. Follows r s.0
unfolding candidate_on
candidate_on-Follows msg_prop r m room new = stays r
candidate_on-Follows msg_app r m room new = steps_down r m (new refl)
candidate_on-Follows msg_heartbeat r m room new =
    Yields-bind (become_follower r m.term m.from) _ _ _
      (become_follower-Follows r m.term m.from (new refl))
      λ a k. finely r _ (moves r a _ k.0 (steadily a _ (handle_heartbeat-Steady a m)))
candidate_on-Follows msg_snap r m room new = steps_down r m (new refl)
candidate_on-Follows msg_pre_vote_resp r m room new =
    Yields-if (is_pre_candidate r.state) _ _ _ (count_vote-Follows r m room) (stays r)
candidate_on-Follows msg_vote_resp r m room new =
    Yields-if (is_pre_candidate r.state) _ _ _ (stays r) (count_vote-Follows r m room)
candidate_on-Follows _ r m room new = stays r

vote_not_pre : (t : MessageType) → is_vote t ≡ true → is_pre_vote t ≡ false
vote_not_pre msg_vote h = refl
vote_not_pre msg_pre_vote h = absurd (ground arith)
vote_not_pre _ h = refl

cast_vote-Follows :
    (r : Raft) (m : Message) → can_vote r m ≡ true → Yields (cast_vote r m) (Follows r)
unfolding cast_vote can_vote
cast_vote-Follows r m can = after (Log.last_term r.raft_log) _ _ λ t.
    after (vote_resp_msg_type m.typ) _ _ λ resp.
      Yields-bind (send r _) _ _ (Follows r) (send-same r _) λ a s.
        elim (Bool-cases (is_vote m.typ)) [
          | inl voted ↦
              let no_pre : is_pre_vote m.typ ≡ false = vote_not_pre m.typ voted in
              rw voted (omega (arith, s.0), λ same cast. ground (arith, can, no_pre))
          | inr other ↦ rw other (omega (arith, s.0), λ same cast. s.1)
        ]

pub refuse_vote-Steady : (r : Raft) (m : Message) → Yields (refuse_vote r m) (Steady r)
unfolding refuse_vote
refuse_vote-Steady r m =
    after (Log.last_term r.raft_log) _ _
      λ t. after (vote_resp_msg_type m.typ) _ _ λ resp. send-Steady r _ (refusal resp)
  where
    refusal : (t : MessageType) → is_vote_resp t && false ≡ false
    refusal t = ground arith

on_vote_request-Follows : (r : Raft) (m : Message) → Yields (on_vote_request r m) (Follows r)
unfolding on_vote_request
on_vote_request-Follows r m = elim (Bool-cases (can_vote r m)) [
  | inl can ↦
      rw (on_vote_request, can)
        (after (Log.is_up_to_date r.raft_log m.index m.log_term) _ _ λ up.
          Yields-if up _ _ _ (cast_vote-Follows r m can) (steadily r _ (refuse_vote-Steady r m)))
  | inr cannot ↦ rw (on_vote_request, cannot) (steadily r _ (refuse_vote-Steady r m))
]

call_step-Follows :
    (f : StepFunc) (r : Raft) (m : Message)
    → r.term + 1 < modulus
    → (from_new_leader m.typ ≡ true → r.term ≤ m.term)
    → Yields (call_step f r m) λ s. Follows r s.0
unfolding call_step
call_step-Follows step_follower r m room new =
    Yields-map (follower_on m.typ r m) _ _ (follower_on-Steady m.typ r m refl)
      λ s k. Follows-Steady r s.0 k
call_step-Follows step_candidate r m room new = candidate_on-Follows m.typ r m room new
call_step-Follows step_leader r m room new =
    Yields-map (leader_on m.typ r m) _ _ (leader_on-Steady m.typ r m) λ s k. Follows-Steady r s.0 k

dispatch-Follows :
    (t : MessageType) (r : Raft) (m : Message)
    → r.term + 1 < modulus
    → (from_new_leader m.typ ≡ true → r.term ≤ m.term)
    → Yields (dispatch t r m) λ s. Follows r s.0
unfolding dispatch
dispatch-Follows msg_hup r m room new = finely r _ (hup-Follows r _ room)
dispatch-Follows msg_storage_append_resp r m room new = stays r
dispatch-Follows msg_storage_apply_resp r m room new = stays r
dispatch-Follows msg_vote r m room new = finely r _ (on_vote_request-Follows r m)
dispatch-Follows msg_pre_vote r m room new = finely r _ (on_vote_request-Follows r m)
dispatch-Follows _ r m room new = call_step-Follows r.step r m room new

raise_term-Follows :
    (r : Raft) (m : Message)
    → r.term ≤ m.term
    → Yields (raise_term r m) λ a. Follows r a × (a.term ≤ m.term)
unfolding raise_term
raise_term-Follows r m h =
    Yields-if (is_pre_vote m.typ || is_granted_pre_vote m.typ m.reject) _ _ _ (stays r, h)
      (Yields-map (become_follower r m.term _) _ _ (become_follower-Follows r m.term _ h)
        λ a k. (k.0, omega (arith, k.1)))

pub on_lower_term-Steady : (r : Raft) (m : Message) → Yields (on_lower_term r m) (Steady r)
unfolding on_lower_term
on_lower_term-Steady r m =
    Yields-if ((r.check_quorum || r.pre_vote) && from_old_leader m.typ) _ _ _ (send-Steady r _ refl)
      (Yields-if (is_pre_vote m.typ) _ _ _
        (after (Log.last_term r.raft_log) _ _ λ t. send-Steady r _ refl) refl)

-- Let the terms of the node and of the message be below the last word, and let a message that only a new
-- leader sends have a nonzero term. Then however `Step` handles the message, if it returns, the term has
-- not fallen, and if the term is the same then a vote that was cast has not changed.
pub step-Follows :
    (r : Raft) (m : Message)
    → r.term + 1 < modulus
    → m.term + 1 < modulus
    → (from_new_leader m.typ ≡ true → m.term ≢ 0)
    → Yields (step r m) λ s. Follows r s.0
unfolding step
step-Follows r m room room_m real =
    Yields-test (m.term == 0) _ _ _
      (λ local. dispatch-Follows m.typ r m room λ new. absurd (real new (ground (arith, local))))
      λ termed.
        Yields-test (ltb r.term m.term) _ _ _
          (λ higher.
            Yields-bind (raise_term r m) _ _ _ (raise_term-Follows r m (ground (arith, higher)))
              λ a k.
                Yields-map (dispatch m.typ a m) _ _
                  (dispatch-Follows m.typ a m (omega (arith, k.1)) λ new. k.1)
                  λ s f. Follows-trans r a s.0 k.0 f)
          λ not_higher.
            Yields-test (ltb m.term r.term) _ _ _
              (λ lower. finely r _ (steadily r _ (on_lower_term-Steady r m)))
              λ not_lower. dispatch-Follows m.typ r m room λ new. ground (arith, not_lower)
