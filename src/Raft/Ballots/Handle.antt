-- ===== src/Raft/Ballots/Handle.antt =====
-- raft/core/raft.go: `Step` keeps a node honest, whatever the message.
use yyckv.Base.{
  ℕ, ◌+◌, ◌≤◌, ◌<◌, ◌≡◌, ◌≢◌, refl, ap, sym, ◌∙◌, Bool, true, false, not, [], ◌∷◌, ◌++◌, arith,
  ◌||◌, ◌&&◌, ◌==◌, subst, ltb, Yields, Yields-bind, Yields-map, Yields-if, Yields-test,
}
use yyckv.Base.Word.{modulus}
use yyckv.Util.{vote_resp_msg_type}
use yyckv.Pb.{
  Message, MessageType, msg_prop, msg_app, msg_heartbeat, msg_snap, msg_pre_vote_resp,
  msg_vote_resp, msg_hup, msg_vote, msg_pre_vote, msg_storage_append_resp, msg_storage_apply_resp,
}
use yyckv.Log
use yyckv.Raft.{Raft, is_pre_candidate, StepFunc, step_follower, step_candidate, step_leader}
use yyckv.Raft.Send.{send}
use yyckv.Raft.Become.{become_follower}
use yyckv.Raft.Follower.{follower_on}
use yyckv.Raft.Candidate.{candidate_on}
use yyckv.Raft.Leader.{leader_on}
use yyckv.Raft.Face.{Face, face, send-Steady, is_grant, is_vote_resp}
use yyckv.Raft.Step.{
  step, raise_term, can_vote, cast_vote, on_vote_request, call_step, dispatch, is_vote, is_pre_vote,
  is_granted_pre_vote, from_new_leader,
}
use yyckv.Raft.Step.Terms.{after}
use yyckv.Raft.Step.Handlers.{follower_on-Steady, leader_on-Steady, handle_heartbeat-Steady}
use yyckv.Raft.Step.Faces.{grant, send-grant, become_follower-face}
use yyckv.Raft.Step.Vote.{refuse_vote-Steady, on_lower_term-Steady}
use yyckv.Raft.Ballots.{Ballots, IsCast, Honest, here, Grows, Grows-trans}
use yyckv.Raft.Ballots.Moves.{entered-Grows, vote-Grows}
use yyckv.Raft.Ballots.Election.{Grown, settled, calmly, reshaped, well, hup-Grown, then_on}
use yyckv.Raft.Ballots.Count.{Backs, count_vote-Grown}

-- The term is below the last word, the messages of a leader and of a candidate have a term, and those of a
-- candidate a sender.
abbrev pub Proper : Message → Type 0
Proper m =
    (m.term + 1 < modulus)
    × (from_new_leader m.typ || is_vote m.typ ≡ true → m.term ≢ 0)
    × (is_vote m.typ ≡ true → m.from ≢ 0)

-- A vote that is granted was cast, for the node `id`.
abbrev pub Vouched : Ballots → ℕ → Message → Type 0
Vouched b id m = is_grant m ≡ true → IsCast b m × (m.to ≡ id)

-- How the term of a message compares with that of the node when it is dispatched.
abbrev Fits : ℕ → Message → Type 0
Fits t m =
    (t + 1 < modulus)
    × (is_grant m ≡ true → m.term ≡ t)
    × (is_vote m.typ ≡ true → m.term ≡ t)
    × (from_new_leader m.typ ≡ true → t ≤ m.term)

follows-Grown :
    (b : Ballots) (r : Raft) (term leader : ℕ)
    → r.term ≤ term
    → Honest b (face r)
    → Yields (become_follower r term leader) (Grown b r)
follows-Grown b r term leader up h =
    reshaped b r _ _ (become_follower-face r term leader) (entered-Grows b (face r) term up h)

candidate_on-Grown :
    (b : Ballots) (t : MessageType) (r : Raft) (m : Message)
    → t ≡ m.typ
    → Fits r.term m
    → Vouched b r.id m
    → Honest b (face r)
    → Yields (candidate_on t r m) λ s. Grown b r s.0
unfolding candidate_on
candidate_on-Grown b msg_prop r m e fits vouched h = here b (face r) h
candidate_on-Grown b msg_app r m e fits vouched h =
    well b r _ (follows-Grown b r m.term m.from (fits.3 (ap from_new_leader (sym e))) h)
candidate_on-Grown b msg_heartbeat r m e fits vouched h =
    Yields-bind (become_follower r m.term m.from) _ (Grown b r) _
      (follows-Grown b r m.term m.from (fits.3 (ap from_new_leader (sym e))) h)
      λ a g. well b r _ (then_on b r a _ g λ c k. calmly c a _ k (handle_heartbeat-Steady a m))
candidate_on-Grown b msg_snap r m e fits vouched h =
    well b r _ (follows-Grown b r m.term m.from (fits.3 (ap from_new_leader (sym e))) h)
candidate_on-Grown b msg_pre_vote_resp r m e fits vouched h =
    Yields-test (is_pre_candidate r.state) _ _ _
      (λ pre. count_vote-Grown b r m fits.0 (λ v s. absurd (ground (arith, pre, s))) h)
      λ running. here b (face r) h
candidate_on-Grown b msg_vote_resp r m e fits vouched h =
    Yields-if (is_pre_candidate r.state) _ _ _ (here b (face r) h)
      (count_vote-Grown b r m fits.0 backs h)
  where
    backs : Backs b r m
    backs v s =
        let granted : is_grant m ≡ true = rw (← e) v in
        ground (arith, vouched granted, fits.1 granted)
candidate_on-Grown b _ r m e fits vouched h = here b (face r) h

cast_vote-Grown :
    (b : Ballots) (t : MessageType) (r : Raft) (m : Message)
    → t ≡ m.typ
    → Fits r.term m
    → (is_vote m.typ ≡ true → m.from ≢ 0)
    → can_vote r m ≡ true
    → Honest b (face r)
    → Yields (cast_vote r m) (Grown b r)
unfolding cast_vote can_vote vote_resp_msg_type
cast_vote-Grown b msg_vote r m e fits real can h =
    let now : m.term ≡ r.term = fits.2 (ap is_vote (sym e)) in
    let named : m.from ≢ 0 = real (ap is_vote (sym e)) in
    let plain : is_pre_vote m.typ ≡ false = ap is_pre_vote (sym e) in
    let once : r.vote ≢ 0 → r.vote ≡ m.from = λ v. ground (arith, can, plain) in
    rw (← e) (
      after (Log.last_term r.raft_log) _ _ λ lt.
        Yields-bind (send r _) _ _ (Grown b r) (send-grant r m.from m.term) λ a (termed, k).
          let shape =
            ap (λ (f : Face). record f { vote = m.from }) k
            ∙ ap
                (λ u. record (face r) {
                  vote = m.from;
                  grants = (face r).grants ++ (grant r.id m.from u ∷ []);
                })
                now in
          subst (Grows b (face r)) (sym shape)
            (vote-Grows b (face r) m.from named (λ z. termed (now ∙ z)) once h))
cast_vote-Grown b msg_pre_vote r m e fits real can h = rw (← e) (
    after (Log.last_term r.raft_log) _ _
      λ lt. Yields-bind (send r _) _ _ (Grown b r) (send-Steady r _ refl) λ a s. settled b r a h s)
cast_vote-Grown b _ r m e fits real can h = rw (← e) (after (Log.last_term r.raft_log) _ _ λ lt. tt)

on_vote_request-Grown :
    (b : Ballots) (r : Raft) (m : Message)
    → Fits r.term m
    → (is_vote m.typ ≡ true → m.from ≢ 0)
    → Honest b (face r)
    → Yields (on_vote_request r m) (Grown b r)
unfolding on_vote_request
on_vote_request-Grown b r m fits real h =
    let refused = calmly b r _ h (refuse_vote-Steady r m) in
    Yields-test (can_vote r m) _ _ _
      (λ can.
        after (Log.is_up_to_date r.raft_log m.index m.log_term) _ _
          λ up. Yields-if up _ _ _ (cast_vote-Grown b m.typ r m refl fits real can h) refused)
      λ cannot. refused

call_step-Grown :
    (b : Ballots) (f : StepFunc) (r : Raft) (m : Message)
    → Fits r.term m
    → Vouched b r.id m
    → Honest b (face r)
    → Yields (call_step f r m) λ s. Grown b r s.0
unfolding call_step
call_step-Grown b step_follower r m fits vouched h =
    Yields-map (follower_on m.typ r m) _ _ (follower_on-Steady m.typ r m refl)
      λ s k. settled b r s.0 h k
call_step-Grown b step_candidate r m fits vouched h =
    candidate_on-Grown b m.typ r m refl fits vouched h
call_step-Grown b step_leader r m fits vouched h =
    Yields-map (leader_on m.typ r m) _ _ (leader_on-Steady m.typ r m) λ s k. settled b r s.0 h k

dispatch-Grown :
    (b : Ballots) (t : MessageType) (r : Raft) (m : Message)
    → Fits r.term m
    → (is_vote m.typ ≡ true → m.from ≢ 0)
    → Vouched b r.id m
    → Honest b (face r)
    → Yields (dispatch t r m) λ s. Grown b r s.0
unfolding dispatch
dispatch-Grown b msg_hup r m fits real vouched h = well b r _ (hup-Grown b r _ fits.0 h)
dispatch-Grown b msg_storage_append_resp r m fits real vouched h = here b (face r) h
dispatch-Grown b msg_storage_apply_resp r m fits real vouched h = here b (face r) h
dispatch-Grown b msg_vote r m fits real vouched h =
    well b r _ (on_vote_request-Grown b r m fits real h)
dispatch-Grown b msg_pre_vote r m fits real vouched h =
    well b r _ (on_vote_request-Grown b r m fits real h)
dispatch-Grown b _ r m fits real vouched h = call_step-Grown b r.step r m fits vouched h

pre_only :
    (t : MessageType) (reject : Bool)
    → is_pre_vote t || is_granted_pre_vote t reject ≡ true
    → (is_vote t ≡ false) × (is_vote_resp t && not reject ≡ false)
pre_only msg_pre_vote reject h = (refl, refl)
pre_only msg_pre_vote_resp reject h = (refl, refl)
pre_only _ reject h = absurd (ground arith)

raise_term-Grown :
    (b : Ballots) (r : Raft) (m : Message)
    → r.term < m.term
    → Proper m
    → Honest b (face r)
    → Yields (raise_term r m) λ a. Grown b r a × Fits a.term m
unfolding raise_term
raise_term-Grown b r m up proper h =
    Yields-test (is_pre_vote m.typ || is_granted_pre_vote m.typ m.reject) _ _ _
      (λ pre.
        let (no_vote, no_grant) = pre_only m.typ m.reject pre in
        (
          here b (face r) h,
          (
            omega (arith, up, proper.0),
            λ g. absurd (ground (arith, no_grant)),
            λ v. absurd (ground (arith, no_vote)),
            λ l. omega (arith, up),
          ),
        ))
      λ other. Yields-map (become_follower r m.term _) _ _ (become_follower-face r m.term _) λ a e.
        let at : a.term ≡ m.term = ap Face.term e in
        (
          subst (Grows b (face r)) (sym e) (entered-Grows b (face r) m.term (omega (arith, up)) h),
          (omega (arith, at, proper.0), λ g. sym at, λ v. sym at, λ l. omega (arith, at)),
        )

-- A node keeps telling the truth about the ballots when it handles a proper message, in which a vote that is
-- granted was cast for it, and only it has cast more.
pub step-Grown :
    (b : Ballots) (r : Raft) (m : Message)
    → r.term + 1 < modulus
    → Proper m
    → Vouched b r.id m
    → Honest b (face r)
    → Yields (step r m) λ s. Grown b r s.0
unfolding step
step-Grown b r m room proper vouched h =
    Yields-test (m.term == 0) _ _ _
      (λ local.
        let none_set : m.term ≡ 0 = ground (arith, local) in
        let fits : Fits r.term m = (
          room,
          λ g. absurd ((vouched g).0.2 none_set),
          λ v. absurd (proper.1 (ground (arith, v)) none_set),
          λ l. absurd (proper.1 (ground (arith, l)) none_set),
        ) in
        dispatch-Grown b m.typ r m fits proper.2 vouched h)
      λ termed.
        Yields-test (ltb r.term m.term) _ _ _
          (λ higher.
            Yields-bind (raise_term r m) _ _ _
              (raise_term-Grown b r m (ground (arith, higher)) proper h) λ a k. raised a k.0 k.1)
          λ not_higher.
            Yields-test (ltb m.term r.term) _ _ _
              (λ lower. well b r _ (calmly b r _ h (on_lower_term-Steady r m)))
              λ not_lower.
                let same : m.term ≡ r.term = ground (arith, not_higher, not_lower) in
                let fits : Fits r.term m = (room, λ g. same, λ v. same, λ l. omega (arith, same)) in
                dispatch-Grown b m.typ r m fits proper.2 vouched h
  where
    raised :
        (a : Raft) → Grown b r a → Fits a.term m → Yields (dispatch m.typ a m) λ s. Grown b r s.0
    raised a (i, v, (c, l, k)) fits =
        Yields-map (dispatch m.typ a m) _ _
          (dispatch-Grown c m.typ a m fits proper.2
            (λ g. let (cast, to) = vouched g in ((cast.0, l.0 _ _ _ cast.1, cast.2), to ∙ sym i)) k)
          λ s g. Grows-trans b c (face r) (face a) (face s.0) i v l g
