-- ===== src/RawNode/Delivery.antt =====
-- raft/core/rawnode.go: the messages that `Ready` hands out, and those it keeps for the node itself.
use mathlib.Core.List.{Perm, perm_middle, append_assoc}
use mathlib.Core.List.Perm
use yyckv.Base.{
  ℕ, ◌≡◌, true, false, List, [], ◌∷◌, ◌++◌, arith, ok, refl, ◌==◌, Returns, Bool-cases, inl, inr,
  All,
}
use yyckv.Pb.{Message, Entry}
use yyckv.Log.Ranges.{next_unstable_ents, next_committed_ents}
use yyckv.RawNode.{
  RawNode, Ready, ready, ready_without_accept, accept_ready, apply_unstable_entries, to_others,
  to_self,
}

split_perm : (id : ℕ) (ms : List Message) → Perm (to_others id ms ++ to_self id ms) ms
unfolding to_others to_self
split_perm id [] = Perm.refl []
split_perm id (m ∷ ms) = elim (Bool-cases (m.to == id)) [
  | inl own ↦
      rw own (
        Perm.trans (perm_middle (to_others id ms) (to_self id ms)) (Perm.cons m (split_perm id ms)))
  | inr other ↦ rw other (Perm.cons m (split_perm id ms))
]

deliver_perm :
    (id : ℕ) (ms late : List Message)
    → Perm ((ms ++ to_others id late) ++ to_self id late) (ms ++ late)
deliver_perm id ms late =
    rw (append_assoc ms (to_others id late) (to_self id late))
      (Perm.append_left ms (split_perm id late))

others-All : (id : ℕ) (ms : List Message) → All (λ m. m.to == id ≡ false) (to_others id ms)
unfolding to_others
others-All id [] = tt
others-All id (m ∷ ms) = ground (arith, others-All id ms)

self-All : (id : ℕ) (ms : List Message) → All (λ m. m.to == id ≡ true) (to_self id ms)
unfolding to_self
self-All id [] = tt
self-All id (m ∷ ms) = ground (arith, self-All id ms)

-- What `Ready` makes of a node that writes its storage itself: no message is lost, those that wait
-- for the storage go to other nodes at once only if they are for those, and the queues are empty.
pub record Delivers (rn rn' : RawNode) (rd : Ready) : Type 0 where
  pub all_sent :
      Perm (rd.messages ++ rn'.steps_on_advance) (rn.raft.msgs ++ rn.raft.msgs_after_append)
  pub for_others :
      (late : List Message) × (rd.messages ≡ rn.raft.msgs ++ late)
      × All (λ m. m.to == rn.raft.id ≡ false) late
  pub for_self : All (λ m. m.to == rn.raft.id ≡ true) rn'.steps_on_advance
  pub no_msgs : rn'.raft.msgs ≡ []
  pub no_late_msgs : rn'.raft.msgs_after_append ≡ []
  pub same_log : rn'.raft.raft_log ≡ rn.raft.raft_log

-- With the entries to store and to apply at hand, and no messages left to step from the last time,
-- `Ready` returns those entries and delivers the messages.
pub ready-Delivers :
    (rn : RawNode) (es committed : List Entry)
    → rn.async_storage_writes ≡ false
    → rn.steps_on_advance ≡ []
    → next_unstable_ents rn.raft.raft_log ≡ ok es
    → next_committed_ents rn.raft.raft_log (apply_unstable_entries rn) ≡ ok committed
    → Returns
        (ready rn)
        λ r. Delivers rn r.0 r.1 × (r.1.entries ≡ es) × (r.1.committed_entries ≡ committed)
unfolding ready ready_without_accept accept_ready
ready-Delivers rn es committed sync empty stored applied =
    rw (stored, applied, sync, empty)
      (
        record {
          all_sent = deliver_perm rn.raft.id rn.raft.msgs rn.raft.msgs_after_append;
          for_others = (
            to_others rn.raft.id rn.raft.msgs_after_append,
            refl,
            others-All rn.raft.id rn.raft.msgs_after_append,
          );
          for_self = self-All rn.raft.id rn.raft.msgs_after_append;
          no_msgs = refl;
          no_late_msgs = refl;
          same_log = refl;
        },
        refl,
        refl,
      )
