-- ===== src/Raft/Step/Grant.antt =====
-- raft/core/raft.go: the answer of `Step` to a request for a vote.
use yyckv.Base.{
  ℕ, ◌≤◌, ◌<◌, ◌≡◌, ◌≢◌, ◌⊎◌, refl, Bool, true, false, some, [], ◌∷◌, ◌++◌, ok, Returns,
  Returns-value, Bool-cases, inl, inr, arith, sym, ◌∙◌,
}
use yyckv.Pb.{Message, message, msg_vote, msg_vote_resp}
use yyckv.Log
use yyckv.Log.View.{Stable, IsValid, term_at, end_of}
use yyckv.Log.Election.{is_up_to_date_lem, last_term_lem}
use yyckv.Util.{vote_resp_msg_type}
use yyckv.Raft.{Raft}
use yyckv.Raft.Send.{send, with_term, with_sender, enqueue}
use yyckv.Raft.Step.{can_vote, cast_vote, refuse_vote, on_vote_request}

-- The last entry of the candidate's log is no older than one at `last`, of term `ours`.
abbrev pub IsCurrent : ℕ → ℕ → Message → Type 0
IsCurrent ours last m = (ours < m.log_term) ⊎ (m.log_term ≡ ours) × (last ≤ m.index)

-- The node has voted for the sender, or has not voted and knows no leader.
abbrev pub CanVote : Raft → Message → Type 0
CanVote r m = (r.vote ≡ m.from) ⊎ (r.vote ≡ 0) × (r.lead ≡ 0)

-- Whether a node can vote for the sender of a request for a real vote.
can_vote_iff :
    (r : Raft) (m : Message)
    → m.typ ≡ msg_vote
    → (can_vote r m ≡ true → CanVote r m) × (CanVote r m → can_vote r m ≡ true)
unfolding can_vote
can_vote_iff r m typ = (λ h. ground (arith, h, typ), λ h. ground (arith, h, typ))

-- The answer to a request.
abbrev pub answer : Raft → Message → ℕ → Bool → Message
answer r m term reject = record (message msg_vote_resp m.from) {
  from = r.id;
  term = term;
  reject = reject;
}

-- The vote is for the candidate, the clock of elections starts again, the answer, which waits for the
-- storage, grants the vote, and nothing else changes.
abbrev pub Grants : Raft → Message → Raft → Type 0
Grants r m r' = r' ≡ record r {
  vote = m.from;
  election_elapsed = 0;
  msgs_after_append = r.msgs_after_append ++ (answer r m m.term false ∷ []);
}

-- Nothing changes but for the answer, which rejects.
abbrev pub Refuses : Raft → Message → Raft → Type 0
Refuses r m r' =
    r' ≡ record r { msgs_after_append = r.msgs_after_append ++ (answer r m r.term true ∷ []) }

send_answer :
    (r : Raft) (dest term : ℕ) (reject : Bool)
    → term ≢ 0
    → send r (record (message msg_vote_resp dest) { term = term; reject = reject })
      ≡ ok (record r {
        msgs_after_append =
            r.msgs_after_append
            ++ (record (message msg_vote_resp dest) { from = r.id; term = term; reject = reject }
                ∷ []);
      })
unfolding send with_term with_sender enqueue
send_answer r dest term reject some_term = ground arith

module _ (s : Stable) (r : Raft) (v : IsValid s r.raft_log) (m : Message) (typ : m.typ ≡ msg_vote)
    (term : r.term ≢ 0) (term_m : m.term ≢ 0) where
  cast_vote_lem :
      (t : ℕ)
      → term_at s r.raft_log (end_of s r.raft_log) ≡ some t
      → Returns (cast_vote r m) (Grants r m)
  unfolding cast_vote vote_resp_msg_type
  cast_vote_lem t known =
      rw (last_term_lem s r.raft_log v t known, typ)
        (rw (send_answer r m.from m.term false term_m) refl)

  refuse_vote_lem :
      (t : ℕ)
      → term_at s r.raft_log (end_of s r.raft_log) ≡ some t
      → Returns (refuse_vote r m) (Refuses r m)
  unfolding refuse_vote vote_resp_msg_type
  refuse_vote_lem t known =
      rw (last_term_lem s r.raft_log v t known, typ)
        (rw (send_answer r m.from r.term true term) refl)

  -- The case of `Step` for a request for a real vote, with a valid log and nonzero terms of the node
  -- and of the message, returns, with one answer queued for after the append. If the node has voted for
  -- the sender, or has not voted and knows no leader, and the last entry of the sender's log is no older
  -- than its own, it votes for the sender, its election clock starts again, and the answer, at the term of
  -- the message, grants the vote; otherwise the answer, at its own term, rejects. Nothing else changes.
  pub on_vote_request_lem :
      (ours : ℕ) × (term_at s r.raft_log (end_of s r.raft_log) ≡ some ours)
      × Returns (on_vote_request r m) λ r'.
        (CanVote r m × IsCurrent ours (end_of s r.raft_log) m × Grants r m r')
        ⊎ (¬ (CanVote r m × IsCurrent ours (end_of s r.raft_log) m)) × Refuses r m r'
  unfolding on_vote_request
  on_vote_request_lem =
      let (ours, known, tested) = is_up_to_date_lem s r.raft_log v m.index m.log_term in
      let (b, up, iff) = Returns-value (Log.is_up_to_date r.raft_log m.index m.log_term) _ tested in
      let (refused, refuses, answered) =
        Returns-value (refuse_vote r m) _ (refuse_vote_lem ours known) in
      let (cast, casts, granted) = Returns-value (cast_vote r m) _ (cast_vote_lem ours known) in
      (
        ours,
        known,
        elim (Bool-cases (can_vote r m)) [
          | inr cannot ↦
              rw (on_vote_request, cannot, refuses)
                (inr (
                  λ h. absurd (ground (arith, sym cannot ∙ (can_vote_iff r m typ).1 h.0)),
                  answered,
                ))
          | inl can ↦
              rw (on_vote_request, can, up)
                (elim (Bool-cases b) [
                  | inl current ↦
                      rw (current, casts)
                        (inl ((can_vote_iff r m typ).0 can, iff.0 current, granted))
                  | inr stale ↦
                      rw (stale, refuses)
                        (inr (λ h. absurd (ground (arith, iff.1 h.1, stale)), answered))
                ])
        ],
      )
