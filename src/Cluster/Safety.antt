-- ===== src/Cluster/Safety.antt =====
-- raft/core/raft.go, rawnode.go and quorum/: the elections of a cluster.
use yyckv.Base.{
  ℕ, ◌<◌, ◌≡◌, ◌≢◌, refl, ap, sym, ◌∙◌, true, none, some, List, [], ◌∷◌, arith, All, All-append,
  Bool-cases, inl, inr, ◌==◌, ok, Fallible, Yields, subst, length,
}
use mathlib.Core.Option.{some-injective}
use mathlib.Core.Path.{subst₂}
use yyckv.Pb.{Message}
use yyckv.Quorum.IdSet.{members}
use yyckv.Quorum.Intersect.{joint-intersect}
use yyckv.Quorum.Joint.{JointConfig}
use yyckv.Raft.{state_leader}
use yyckv.Raft.Face.{face, is_grant}
use yyckv.Raft.Ballots.{Ballots, Honest-Later, Later}
use yyckv.RawNode.{RawNode}
use yyckv.Cluster.{
  Cluster, put, IsSent, Move, ticks, receives, hands_over, advances, Reaches, starts, moves,
  IsFresh, IsStart,
}
use yyckv.Cluster.Node.{Told, Told-Later, Queued-Later}
use yyckv.Cluster.Calls.{Sound, Acts, tick-Acts, step-Acts, advance-Acts, ready-Acts}

abbrev Safe : Ballots → JointConfig → Cluster → Type 0
Safe b voters c = ((j : ℕ) → 0 < j → Sound b voters j (c.nodes j)) × All (Told b) c.sent

-- No ballot is lost.
abbrev Lasts : Ballots → Ballots → Type 0
Lasts b b' = (k t c : ℕ) → b k t ≡ some c → b' k t ≡ some c

abbrev Goes : Ballots → JointConfig → Cluster → Type 0
Goes b voters c = (b' : Ballots) × Lasts b b' × Safe b' voters c

yielded {ℓ} : {A : Type ℓ} (m : Fallible A) (a : A) (P : A → Type 0) → m ≡ ok a → Yields m P → P a
yielded m a P e h = subst (λ x. Yields x P) e h

Sound-Later :
    (b b' : Ballots) (voters : JointConfig) (k j : ℕ) (rn : RawNode)
    → Later k b b'
    → j ≢ k
    → Sound b voters j rn
    → Sound b' voters j rn
Sound-Later b b' voters k j rn l other (id, same, h, q) = (
  id,
  same,
  Honest-Later k b b' (face rn.raft) l (λ e. other (sym id ∙ e)) h,
  Queued-Later k b b' j rn.steps_on_advance l q,
)

placed :
    (b : Ballots) (voters : JointConfig) (c : Cluster) (k : ℕ) (rn : RawNode) (ms : List Message)
    → Safe b voters c
    → Acts b voters k rn ms
    → Goes b voters (put c k rn ms)
placed b voters c k rn ms (nodes, sent) (b', l, s, told) = (
  b',
  l.0,
  (
    λ j some_id. elim (Bool-cases (j == k)) [
      | inl same ↦ rw same (subst (λ i. Sound b' voters i rn) (ground (arith, same)) s)
      | inr other ↦
          rw other
            (Sound-Later b b' voters k j (c.nodes j) l (ground (arith, other)) (nodes j some_id))
    ],
    All-append (Told b') c.sent ms (Told-Later k b b' c.sent l sent) told,
  ),
)

sent-Told :
    (b : Ballots) (m : Message) (ms : List Message) → IsSent ms m → All (Told b) ms → Told b m
sent-Told b m [] s h = absurd s
sent-Told b m (x ∷ xs) (inl e) h = subst (Told b) e h.0
sent-Told b m (x ∷ xs) (inr s) h = sent-Told b m xs s h.1

Move-Goes :
    (b : Ballots) (voters : JointConfig) (c d : Cluster)
    → Move c d
    → Safe b voters c
    → Goes b voters d
Move-Goes b voters c _ (ticks _ k rn some_id room e) s =
    placed b voters c k rn [] s
      (yielded _ rn _ e (tick-Acts b voters k (c.nodes k) room (s.0 k some_id)))
Move-Goes b voters c _ (receives _ k m rn x some_id room proper granted e) s =
    placed b voters c k rn [] s (
      yielded _ (rn, x) _ e
        (step-Acts b voters k (c.nodes k) m room proper
          (λ g. let (was, to) = granted g in (sent-Told b m c.sent was s.1 g, to)) (s.0 k some_id)))
Move-Goes b voters c _ (hands_over _ k rn rd some_id e) s =
    placed b voters c k rn rd.messages s
      (yielded _ (rn, rd) _ e (ready-Acts b voters k (c.nodes k) (s.0 k some_id)))
Move-Goes b voters c _ (advances _ k rn some_id room e) s =
    placed b voters c k rn [] s
      (yielded _ rn _ e (advance-Acts b voters k (c.nodes k) room (s.0 k some_id)))

Reaches-Goes :
    (b : Ballots) (voters : JointConfig) (c d : Cluster)
    → Reaches c d
    → Safe b voters c
    → Goes b voters d
Reaches-Goes b voters c _ (starts _) s = (b, λ k t x h. h, s)
Reaches-Goes b voters c d (moves _ a _ r m) s =
    let (b', l, s') = Reaches-Goes b voters c a r s in
    let (b'', l', s'') = Move-Goes b' voters a d m s' in (b'', λ k t x h. l' k t x (l k t x h), s'')

fresh-Sound :
    (voters : JointConfig) (k : ℕ) (rn : RawNode)
    → 0 < k
    → IsFresh voters k rn
    → Sound (λ n t. none) voters k rn
fresh-Sound voters k rn some_id (id, same, vote, role, msgs, after, own) = (
  id,
  same,
  record {
    some_id = ground arith;
    own = rw vote refl;
    ahead = λ t k. refl;
    granted = rw after tt;
    sealed = rw msgs refl;
    counted = λ s. absurd (ground arith);
    elected = λ s. absurd (ground arith);
  },
  rw own tt,
)

start-Safe : (voters : JointConfig) (c : Cluster) → IsStart voters c → Safe (λ n t. none) voters c
start-Safe voters c (fresh, quiet) =
    (λ j some_id. fresh-Sound voters j (c.nodes j) some_id (fresh j some_id), rw quiet tt)

-- In a cluster whose nodes start fresh, with the same voters, two votes that the same node granted in the
-- same term, and that were sent, are for the same candidate, however the nodes are driven.
pub one_grant :
    (voters : JointConfig) (a c : Cluster) (m n : Message)
    → IsStart voters a
    → Reaches a c
    → IsSent c.sent m
    → IsSent c.sent n
    → is_grant m ≡ true
    → is_grant n ≡ true
    → m.from ≡ n.from
    → m.term ≡ n.term
    → m.to ≡ n.to
one_grant voters a c m n start run m_sent n_sent gm gn from term =
    let (b, _, safe) = Reaches-Goes _ voters a c run (start-Safe voters a start) in
    let x : b m.from m.term ≡ some m.to = (sent-Told b m c.sent m_sent safe.1 gm).1 in
    let y : b n.from n.term ≡ some n.to = (sent-Told b n c.sent n_sent safe.1 gn).1 in
    some-injective _ _ (sym x ∙ subst₂ (λ k t. b k t ≡ some n.to) (sym from) (sym term) y)

-- In a cluster whose nodes start fresh, with the same voters, of which the incoming half is not empty, a
-- node that leads and a node that leads then or later in the same term are the same node, however
-- the nodes are driven.
pub one_leader :
    (voters : JointConfig) (a c d : Cluster) (i j : ℕ)
    → 0 < length (members voters.incoming)
    → IsStart voters a
    → Reaches a c
    → Reaches c d
    → 0 < i
    → 0 < j
    → (c.nodes i).raft.state ≡ state_leader
    → (d.nodes j).raft.state ≡ state_leader
    → (c.nodes i).raft.term ≡ (d.nodes j).raft.term
    → i ≡ j
one_leader voters a c d i j some_voter start run run' some_i some_j leads leads' term =
    let (b, _, safe) = Reaches-Goes _ voters a c run (start-Safe voters a start) in
    let (b', l, safe') = Reaches-Goes b voters c d run' safe in
    let (id, same, h, _) = safe.0 i some_i in
    let (id', same', h', _) = safe'.0 j some_j in
    let (v, won, votes) = h.elected leads in
    let (w, won', votes') = h'.elected leads' in
    let (k, _, _, x, y) =
      joint-intersect _ _ v w (inl (ap JointConfig.incoming (same ∙ sym same'), rw same some_voter))
        won won' in
    let first = l _ _ _ (votes k x) in
    let second = votes' k y in
    sym id
    ∙ some-injective _ _
        (sym first ∙ subst (λ t. b' k t ≡ some (d.nodes j).raft.id) (sym term) second)
    ∙ id'
