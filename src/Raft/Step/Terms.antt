-- ===== src/Raft/Step/Terms.antt =====
-- raft/core/raft.go: the operations that leave the term, the vote, the role and the votes of a node alone.
use yyckv.Base.{
  ℕ, zero, suc, refl, ◌∙◌, Bool, true, false, Option, none, List, [], ◌∷◌, Fallible, ok, panic,
  ◌>>=◌, Yields, Yields-bind, Yields-map, Bool-cases, Option-cases, inl, inr, arith, lookup, deref,
  length, ◌==◌, if◌then◌else◌,
}
use yyckv.Pb.{Entry}
use yyckv.Log
use yyckv.Tracker.{visit_order}
use yyckv.Tracker.Progress.{Progress, update_on_entries_send}
use yyckv.Raft.{Raft}
use yyckv.Raft.Send.{send}
use yyckv.Raft.Face.{Steady, send-Steady}
use yyckv.Raft.Become.{append_entry}
use yyckv.Raft.Replicate.{
  send_entries, maybe_send_append, send_append, send_rest, visit_others, bcast_append,
  send_heartbeat, bcast_heartbeat, maybe_commit, entries_for, or_zero, or_empty,
}

pub onward :
    (r a : Raft) (m : Fallible Raft) → Steady r a → Yields m (Steady a) → Yields m (Steady r)
onward r a m s h = Yields-map m (Steady a) (Steady r) h λ b t. t ∙ s

pub chain :
    (r : Raft) (m : Fallible Raft) (f : Raft → Fallible Raft)
    → Yields m (Steady r)
    → ((a : Raft) → Yields (f a) (Steady a))
    → Yields (m >>= f) (Steady r)
chain r m f h k = Yields-bind m f (Steady r) (Steady r) h λ a s. onward r a (f a) s (k a)

-- A call whose result does not touch the node.
pub after {ℓ} :
    {A : Type ℓ} {B : Type 0} (m : Fallible A) (f : A → Fallible B) (P : B → Type 0)
    → ((a : A) → Yields (f a) P)
    → Yields (m >>= f) P
after (ok a) f P k = k a
after (panic e) f P k = tt

pub send_entries-Steady :
    (r : Raft) (dest : ℕ) (pr : Progress) (t : ℕ) (es : List Entry)
    → Yields (send_entries r dest pr t es) λ s. Steady r s.0
unfolding send_entries
send_entries-Steady r dest pr t es = elim (Option-cases (update_on_entries_send pr (length es))) [
  | inl e ↦ rw (send_entries, e) tt
  | inr (pr', e) ↦
      rw (send_entries, e)
        (Yields-bind (send _ _) _ (Steady r) (λ s. Steady r s.0) (send-Steady _ _ refl) λ a k. k)
]

maybe_send_append-Steady :
    (r : Raft) (dest : ℕ) (always : Bool)
    → Yields (maybe_send_append r dest always) λ s. Steady r s.0
unfolding maybe_send_append
maybe_send_append-Steady r dest always = after (deref (lookup r.trk.progress dest)) _ _ λ pr.
    after (Log.term r.raft_log _) _ _ λ last.
      after (entries_for r pr) _ _
        λ ents. ground (arith, send_entries-Steady r dest pr (or_zero last) (or_empty ents))

pub send_append-Steady : (r : Raft) (dest : ℕ) → Yields (send_append r dest) (Steady r)
unfolding send_append
send_append-Steady r dest =
    Yields-bind (maybe_send_append r dest true) _ (λ s. Steady r s.0) (Steady r)
      (maybe_send_append-Steady r dest true) λ s k. k

pub send_rest-Steady : (fuel : ℕ) (r : Raft) (dest : ℕ) → Yields (send_rest fuel r dest) (Steady r)
unfolding send_rest
send_rest-Steady zero r dest = tt
send_rest-Steady (suc fuel) r dest =
    Yields-bind (maybe_send_append r dest false) _ (λ s. Steady r s.0) (Steady r)
      (maybe_send_append-Steady r dest false)
      λ s k. elim (Bool-cases s.1) [
        | inl more ↦ rw more (onward r s.0 _ k (send_rest-Steady fuel s.0 dest))
        | inr done ↦ rw done k
      ]

visit_others-Steady :
    (f : Raft → ℕ → Fallible Raft) (ids : List ℕ) (r : Raft)
    → ((a : Raft) (id : ℕ) → Yields (f a id) (Steady a))
    → Yields (visit_others f ids r) (Steady r)
unfolding visit_others
visit_others-Steady f [] r h = refl
visit_others-Steady f (id ∷ ids) r h =
    chain r (if id == r.id then ok r else f r id) (visit_others f ids) (ground (arith, h r id))
      λ a. visit_others-Steady f ids a h

pub bcast_append-Steady : (r : Raft) → Yields (bcast_append r) (Steady r)
unfolding bcast_append
bcast_append-Steady r = visit_others-Steady send_append (visit_order r.trk) r send_append-Steady

send_heartbeat-Steady :
    (ctx : Option (List ℕ)) (r : Raft) (dest : ℕ) → Yields (send_heartbeat ctx r dest) (Steady r)
unfolding send_heartbeat
send_heartbeat-Steady ctx r dest =
    after (deref (lookup r.trk.progress dest)) _ _ λ pr. send-Steady r _ refl

pub bcast_heartbeat-Steady : (r : Raft) → Yields (bcast_heartbeat r) (Steady r)
unfolding bcast_heartbeat
bcast_heartbeat-Steady r =
    visit_others-Steady (send_heartbeat none) (visit_order r.trk) r (send_heartbeat-Steady none)

pub maybe_commit-Steady : (r : Raft) → Yields (maybe_commit r) λ s. Steady r s.0
unfolding maybe_commit
maybe_commit-Steady r = after (Log.maybe_commit r.raft_log _ r.term) _ _ λ s. refl

pub append_entry-Steady : (r : Raft) (es : List Entry) → Yields (append_entry r es) (Steady r)
unfolding append_entry
append_entry-Steady r es =
    after (Log.last_index r.raft_log) _ _
      λ li. after (Log.append r.raft_log _) _ _ λ s. send-Steady _ _ refl
