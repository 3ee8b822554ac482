-- ===== src/Raft/Ballots/Count.antt =====
-- raft/core/raft.go: the votes that a candidate counts, and the role they lead to, keep a node honest.
use yyckv.Base.{
  ℕ, ◌+◌, ◌<◌, ◌≡◌, refl, Bool, true, false, not, some, lookup, lookup-insert, arith, inl, inr,
  Option-cases, Yields, Yields-test,
}
use yyckv.Base.Word.{modulus}
use yyckv.Pb.{Message}
use yyckv.Tracker.{record_vote, tally_votes, add_vote}
use yyckv.Quorum.Joint
use yyckv.Quorum.Majority.{VoteResult, vote_won, vote_lost, vote_pending, Votes}
use yyckv.Raft.{
  Raft, StateType, state_follower, state_candidate, state_leader, state_pre_candidate,
  is_pre_candidate,
}
use yyckv.Raft.Become.{become_leader}
use yyckv.Raft.Replicate.{bcast_append}
use yyckv.Raft.Campaign.{campaign_election, poll}
use yyckv.Raft.Candidate.{on_vote_result, count_vote}
use yyckv.Raft.Face.{face}
use yyckv.Raft.Step.Terms.{bcast_append-Steady}
use yyckv.Raft.Step.Faces.{become_follower-face, become_leader-face}
use yyckv.Raft.Ballots.{Ballots, Supports, Honest, here, Grows}
use yyckv.Raft.Ballots.Moves.{entered-Grows, leader-Grows, votes-Grows}
use yyckv.Raft.Ballots.Election.{Grown, growing, calmly, reshaped, well, campaign-Grown, then_on}

Supports-add_vote :
    (b : Ballots) (t c : ℕ) (votes : Votes) (id : ℕ) (v : Bool)
    → (v ≡ true → b id t ≡ some c)
    → Supports b t c votes
    → Supports b t c (add_vote (lookup votes id) votes id v)
Supports-add_vote b t c votes id v new h = elim (Option-cases (lookup votes id)) [
  | inl e ↦ rw e λ k y. ground (arith, new, h k, lookup-insert votes id k v)
  | inr (x, e) ↦ rw e h
]

abbrev Won : Raft → VoteResult → Type 0
Won r o = o ≡ vote_won → Joint.vote_result r.trk.config.voters r.trk.votes ≡ vote_won

takes_lead :
    (b : Ballots) (s : StateType) (r : Raft)
    → r.state ≡ s
    → is_pre_candidate s ≡ false
    → Joint.vote_result r.trk.config.voters r.trk.votes ≡ vote_won
    → Honest b (face r)
    → Yields (become_leader r) (Grown b r)
unfolding become_leader
takes_lead b state_follower r e running won h = rw e tt
takes_lead b state_candidate r e running won h =
    reshaped b r _ _ (become_leader-face r)
      (leader-Grows b (face r) (r.trk.votes, won, h.counted e) h)
takes_lead b state_leader r e running won h =
    reshaped b r _ _ (become_leader-face r) (leader-Grows b (face r) (h.elected e) h)
takes_lead b state_pre_candidate r e running won h = absurd (ground (arith, running))

on_vote_result-Grown :
    (b : Ballots) (o : VoteResult) (r : Raft)
    → r.term + 1 < modulus
    → Won r o
    → Honest b (face r)
    → Yields (on_vote_result o r) (Grown b r)
unfolding on_vote_result
on_vote_result-Grown b vote_won r room won h =
    Yields-test (is_pre_candidate r.state) _ _ _
      (λ pre. campaign-Grown b r campaign_election room h)
      λ running.
        growing b r (become_leader r) bcast_append
          (takes_lead b r.state r refl running (won refl) h)
          λ a c k. calmly c a _ k (bcast_append-Steady a)
on_vote_result-Grown b vote_lost r room won h =
    reshaped b r _ _ (become_follower-face r r.term 0)
      (entered-Grows b (face r) r.term (ground arith) h)
on_vote_result-Grown b vote_pending r room won h = here b (face r) h

-- A vote that is granted is for the candidate that counts it.
abbrev pub Backs : Ballots → Raft → Message → Type 0
Backs b r m = not m.reject ≡ true → r.state ≡ state_candidate → b m.from r.term ≡ some r.id

pub count_vote-Grown :
    (b : Ballots) (r : Raft) (m : Message)
    → r.term + 1 < modulus
    → Backs b r m
    → Honest b (face r)
    → Yields (count_vote r m) λ s. Grown b r s.0
unfolding count_vote poll record_vote tally_votes
count_vote-Grown b r m room backs h =
    let w = add_vote (lookup r.trk.votes m.from) r.trk.votes m.from (not m.reject) in
    let counted : Grows b (face r) (record (face r) { votes = w }) =
      votes-Grows b (face r) w
        (λ s.
          Supports-add_vote b r.term r.id r.trk.votes m.from (not m.reject) (λ v. backs v s)
            (h.counted s))
        h in
    well b r _ (
      then_on b r (poll r m.from (not m.reject)).0 _ counted
        λ c k. on_vote_result-Grown c _ _ room (λ e. e) k)
