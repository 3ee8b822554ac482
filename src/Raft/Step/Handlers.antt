-- ===== src/Raft/Step/Handlers.antt =====
-- raft/core/raft.go: a follower and a leader handle a message without a change of term, vote or role.
use yyckv.Base.{
  ◌||◌, ◌&&◌, not, ℕ, suc, refl, ◌≡◌, false, ◌∙◌, Bool, true, none, some, List, [], ◌∷◌, Fallible,
  ok, ◌>>=◌, Yields, Yields-bind, Yields-if, Option-cases, inl, inr, arith, lookup, ◌==◌,
  if◌then◌else◌, ltb,
}
use yyckv.Pb.{
  Message, MessageType, Entry, ConfChangeI, msg_prop, msg_app, msg_heartbeat, msg_transfer_leader,
  msg_read_index, msg_read_index_resp, msg_beat, msg_check_quorum, msg_forget_leader, msg_app_resp,
}
use yyckv.Base.Word.{add64}
use yyckv.Log
use yyckv.Tracker.Progress.{Progress, maybe_update, is_probe, is_paused}
use yyckv.Raft.{Raft}
use yyckv.Raft.Become.{empty_entry, append_entry}
use yyckv.Raft.Replicate.{maybe_commit}
use yyckv.Raft.Follower.{
  fine, forward, follower_on, keep_read_state, reject_append, handle_append_entries,
  handle_heartbeat,
}
use yyckv.Raft.Leader.{
  conf_change_of, fails_check, on_response, set_progress, check_entry, check_entries, propose,
  advance_state, after_update, acknowledge, with_progress, leader_on,
}
use yyckv.Raft.Face.{Steady, send-Steady, is_grant, not_grant}
use yyckv.Raft.Step.Terms.{
  onward, chain, after, send_append-Steady, send_rest-Steady, bcast_append-Steady,
  bcast_heartbeat-Steady, maybe_commit-Steady, append_entry-Steady,
}

handle_append_entries-Steady :
    (r : Raft) (m : Message) → Yields (handle_append_entries r m) (Steady r)
unfolding handle_append_entries
handle_append_entries-Steady r m =
    Yields-if (ltb m.index r.raft_log.committed) _ _ _ (send-Steady r _ refl) (
      after (Log.maybe_append r.raft_log m.index m.log_term m.commit m.entries) _ (Steady r)
        (elim [ none ↦ reject_append-Steady r m | some (l, last) ↦ send-Steady _ _ refl ]))
  where
    reject_append-Steady : (r : Raft) (m : Message) → Yields (reject_append r m) (Steady r)
    reject_append-Steady r m =
        unfold reject_append in
        after (Log.term r.raft_log m.index) _ _ λ o.
          after (Log.zero_term_on_out_of_bounds o) _ _ λ t.
            after (Log.last_index r.raft_log) _ _ λ last.
              after (Log.find_conflict_by_term r.raft_log _ m.log_term) _ _
                λ hint. send-Steady r _ refl

pub handle_heartbeat-Steady : (r : Raft) (m : Message) → Yields (handle_heartbeat r m) (Steady r)
unfolding handle_heartbeat
handle_heartbeat-Steady r m = send-Steady r _ refl

pub fine-Steady :
    (r : Raft) (m : Fallible Raft) → Yields m (Steady r) → Yields (m >>= fine) λ s. Steady r s.0
fine-Steady r m h = Yields-bind m fine (Steady r) (λ s. Steady r s.0) h λ a k. k

forward-Steady :
    (r : Raft) (m : Message) → is_grant m ≡ false → Yields (forward r m) λ s. Steady r s.0
unfolding forward
forward-Steady r m quiet = fine-Steady r _ (send-Steady r _ quiet)

pub follower_on-Steady :
    (t : MessageType) (r : Raft) (m : Message)
    → t ≡ m.typ
    → Yields (follower_on t r m) λ s. Steady r s.0
unfolding follower_on
follower_on-Steady msg_prop r m e = ground (arith, forward-Steady r m (not_grant msg_prop m e refl))
follower_on-Steady msg_app r m e = fine-Steady r _ (handle_append_entries-Steady _ m)
follower_on-Steady msg_heartbeat r m e = fine-Steady r _ (handle_heartbeat-Steady _ m)
follower_on-Steady msg_transfer_leader r m e =
    ground (arith, forward-Steady r m (not_grant msg_transfer_leader m e refl))
follower_on-Steady msg_read_index r m e =
    ground (arith, forward-Steady r m (not_grant msg_read_index m e refl))
follower_on-Steady msg_read_index_resp r m e = keep_read_state-Steady m.entries
  where
    keep_read_state-Steady : (es : List Entry) → Steady r (keep_read_state r m es)
    keep_read_state-Steady [] = refl
    keep_read_state-Steady (x ∷ []) = refl
    keep_read_state-Steady (x ∷ y ∷ xs) = refl
follower_on-Steady _ r m e = refl

check_entry-Steady : (r : Raft) (i : ℕ) (e : Entry) → Yields (check_entry r i e) λ s. Steady r s.0
unfolding check_entry
check_entry-Steady r i e =
    after (conf_change_of r e.typ e.payload) _ _ (elim [ none ↦ refl | some c ↦ changes c ])
  where
    changes :
        (c : ConfChangeI)
        → Yields {A = Raft × Entry}
            (if fails_check r c && not r.disable_conf_change_validation
              then ok (r, empty_entry)
              else (Log.last_index r.raft_log >>= λ last.
                  ok (record r { pending_conf_index = add64 (add64 last i) 1 }, e)))
            λ s. Steady r s.0
    changes c =
        Yields-if (fails_check r c && not r.disable_conf_change_validation) _ _ _ refl
          (after (Log.last_index r.raft_log) _ _ λ last. refl)

check_entries-Steady :
    (r : Raft) (i : ℕ) (es : List Entry) → Yields (check_entries r i es) λ s. Steady r s.0
unfolding check_entries
check_entries-Steady r i [] = refl
check_entries-Steady r i (e ∷ es) =
    Yields-bind (check_entry r i e) _ (λ s. Steady r s.0) (λ s. Steady r s.0)
      (check_entry-Steady r i e)
      λ s k.
        Yields-bind (check_entries s.0 (suc i) es) _ (λ t. Steady s.0 t.0) (λ t. Steady r t.0)
          (check_entries-Steady s.0 (suc i) es) λ t l. l ∙ k

propose-Steady : (r : Raft) (es : List Entry) → Yields (propose r es) λ s. Steady r s.0
unfolding propose
propose-Steady r [] = tt
propose-Steady r (e ∷ es) = elim (Option-cases (lookup r.trk.progress r.id)) [
  | inl gone ↦ rw (propose, gone) refl
  | inr (pr, known) ↦
      rw (propose, known)
        (Yields-if (r.lead_transferee == 0) _ _ _
          (Yields-bind (check_entries r 0 (e ∷ es)) _ (λ s. Steady r s.0) _
            (check_entries-Steady r 0 (e ∷ es))
            λ s k.
              Yields-bind (append_entry s.0 s.1) _ (Steady r) _
                (onward r s.0 _ k (append_entry-Steady s.0 s.1))
                λ a l. fine-Steady r _ (onward r a _ l (bcast_append-Steady a)))
          refl)
]

after_update-Steady :
    (r : Raft) (from : ℕ) (paused : Bool) → Yields (after_update r from paused) (Steady r)
unfolding after_update
after_update-Steady r from paused =
    chain r _ _
      (Yields-bind (maybe_commit r) _ (λ s. Steady r s.0) (Steady r) (maybe_commit-Steady r)
        λ s k.
          onward r s.0 _ k (ground (arith, bcast_append-Steady s.0, send_append-Steady s.0 from)))
      λ a. ground (arith, send_rest-Steady 2 a from)

acknowledge-Steady :
    (r : Raft) (m : Message) (pr : Progress) → Yields (acknowledge r m pr) (Steady r)
unfolding acknowledge
acknowledge-Steady r m pr =
    let active = record pr { recent_active = true } in
    let u = maybe_update active m.index in
    Yields-if m.reject _ _ _ refl (
      Yields-if (u.1 || (u.0.match_index == m.index && is_probe u.0.state))
        (advance_state r u.0.state u.0 >>= λ pr'.
          after_update (set_progress r m.from pr') m.from (is_paused active))
        (ok (set_progress r m.from u.0)) (Steady r)
        (after (advance_state r u.0.state u.0) _ _
          λ pr'. after_update-Steady (set_progress r m.from pr') m.from (is_paused active))
        refl)

with_progress-Steady : (r : Raft) (m : Message) → Yields (with_progress r m) λ s. Steady r s.0
unfolding with_progress
with_progress-Steady r m = elim (Option-cases (lookup r.trk.progress m.from)) [
  | inl gone ↦ rw (with_progress, gone) refl
  | inr (pr, known) ↦ rw (with_progress, known) (fine-Steady r _ (responds m.typ pr))
]
  where
    responds : (t : MessageType) (pr : Progress) → Yields (on_response t r m pr) (Steady r)
    responds msg_app_resp pr = acknowledge-Steady r m pr
    responds _ pr = refl

pub leader_on-Steady :
    (t : MessageType) (r : Raft) (m : Message) → Yields (leader_on t r m) λ s. Steady r s.0
unfolding leader_on
leader_on-Steady msg_beat r m = fine-Steady r _ (bcast_heartbeat-Steady r)
leader_on-Steady msg_check_quorum r m = refl
leader_on-Steady msg_prop r m = propose-Steady r m.entries
leader_on-Steady msg_forget_leader r m = refl
leader_on-Steady _ r m = with_progress-Steady r m
