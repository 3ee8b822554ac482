-- ===== src/Raft/Step/Faces.antt =====
-- raft/core/raft.go: what the changes of role, the sending of a vote and the counting of one make of the
-- face of a node.
use yyckv.Base.{
  ℕ, ◌+◌, ◌<◌, ◌≡◌, ◌≢◌, refl, ap, ◌∙◌, [], ◌∷◌, ◌++◌, lookup, deref, Yields, Yields-bind,
  Yields-map, Yields-if, arith, Bool-cases, inl, inr, ◌==◌,
}
use yyckv.Base.Word.{modulus, add64, add64_exact}
use yyckv.Pb.{Message, message, msg_vote_resp}
use yyckv.Log
use yyckv.Tracker.{reset_votes}
use yyckv.Raft.{
  Raft, state_follower, state_candidate, state_leader, state_pre_candidate, step_follower,
  step_candidate, step_leader, is_leader, is_follower,
}
use yyckv.Raft.Face.{Face, face, grants_in-append}
use yyckv.Raft.Send.{send, with_sender, with_term, enqueue}
use yyckv.Raft.Become.{
  reset, become_follower, become_candidate, become_pre_candidate, become_leader, take_lead,
  append_entry, empty_entry,
}
use yyckv.Raft.Step.Terms.{after, append_entry-Steady}
use yyckv.Raft.Step.Roles.{entered, reset-face}

pub become_follower-face :
    (r : Raft) (t leader : ℕ)
    → Yields
        (become_follower r t leader)
        λ a. face a ≡ record (entered (face r) t) { state = state_follower }
unfolding become_follower
become_follower-face r t leader =
    Yields-bind (reset _ t) _ _ _ (reset-face (record r { step = step_follower }) t)
      λ a e. ap (λ (f : Face). record f { state = state_follower }) e

pub become_candidate-face :
    (r : Raft)
    → r.term + 1 < modulus
    → Yields (become_candidate r) λ a.
      face a ≡ record (entered (face r) (r.term + 1)) { vote = r.id; state = state_candidate }
unfolding become_candidate
become_candidate-face r room = Yields-if (is_leader r.state) _ _ _ tt (
    Yields-bind (reset _ (add64 r.term 1)) _ _ _
      (reset-face (record r { step = step_candidate }) (add64 r.term 1))
      λ a e.
        ap (λ (f : Face). record f { vote = f.id; state = state_candidate }) e
        ∙ ap (λ t. record (entered (face r) t) { vote = r.id; state = state_candidate })
            (add64_exact r.term 1 room))

pub become_pre_candidate-face :
    (r : Raft)
    → Yields
        (become_pre_candidate r)
        λ a. face a ≡ record (face r) { votes = []; state = state_pre_candidate }
unfolding become_pre_candidate reset_votes
become_pre_candidate-face r = Yields-if (is_leader r.state) _ _ _ tt refl

take_lead-face :
    (r : Raft)
    → Yields (take_lead r) λ a. face a ≡ record (entered (face r) r.term) { state = state_leader }
unfolding take_lead
take_lead-face r =
    Yields-bind (reset _ r.term) _ _ _ (reset-face (record r { step = step_leader }) r.term) λ a e.
      after (deref (lookup a.trk.progress a.id)) _ _ λ pr.
        after (Log.last_index a.raft_log) _ _
          λ last. ap (λ (f : Face). record f { state = state_leader }) e

pub become_leader-face :
    (r : Raft)
    → Yields
        (become_leader r)
        λ a. face a ≡ record (entered (face r) r.term) { state = state_leader }
unfolding become_leader
become_leader-face r = Yields-if (is_follower r.state) _ _ _ tt (
    Yields-bind (take_lead r) _ _ _ (take_lead-face r) λ a e.
      Yields-map (append_entry a (empty_entry ∷ [])) _ _ (append_entry-Steady a (empty_entry ∷ []))
        λ b s. s ∙ e)

-- The grant of a vote by a node.
abbrev pub grant : ℕ → ℕ → ℕ → Message
grant voter dest term = record (message msg_vote_resp dest) { from = voter; term = term }

-- A grant is queued with its sender, and has a term.
pub send-grant :
    (r : Raft) (dest term : ℕ)
    → Yields (send r (record (message msg_vote_resp dest) { term = term })) λ a.
      (term ≢ 0)
      × (face a ≡ record (face r) { grants = (face r).grants ++ (grant r.id dest term ∷ []) })
unfolding send with_term with_sender enqueue
send-grant r dest term = elim (Bool-cases (term == 0)) [
  | inl none_set ↦ rw none_set tt
  | inr some_term ↦ rw some_term (
    ground arith,
    ap (λ g. record (face r) { grants = g })
        (grants_in-append r.msgs_after_append (grant r.id dest term ∷ [])),
  )
]
