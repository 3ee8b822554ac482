-- ===== src/Raft/Ballots/Moves.antt =====
-- raft/core/raft.go: the changes of the face of a node that an election makes keep it honest.
use yyckv.Base.{
  ℕ, ◌+◌, ◌≤◌, ◌≡◌, ◌≢◌, refl, Bool, true, none, some, [], ◌∷◌, ◌++◌, lookup, arith, if◌then◌else◌,
  ◌==◌, All-append, Bool-cases, inl, inr, subst,
}
use yyckv.Pb.{Message}
use yyckv.Quorum.Majority.{Votes}
use yyckv.Raft.{state_follower, state_candidate, state_leader, state_pre_candidate}
use yyckv.Raft.Face.{Face}
use yyckv.Raft.Ballots.{
  Ballots, cast, IsCast, Supports, Elected, Honest, Grows, cast-Later, IsCast-Later, Elected-Later,
  Later-refl,
}
use yyckv.Raft.Step.Roles.{entered}
use yyckv.Raft.Step.Faces.{grant}

-- A higher term is entered without a vote.
pub entered-Honest :
    (b : Ballots) (f : Face) (t : ℕ)
    → f.term ≤ t
    → Honest b f
    → Honest b (record (entered f t) { state = state_follower })
entered-Honest b f t up h = record {
  some_id = h.some_id;
  sealed = h.sealed;
  own = elim (Bool-cases (f.term == t)) [
    | inl same ↦
        rw same
          (subst (λ u. b f.id u ≡ (if f.vote == 0 then none else some f.vote)) (ground arith) h.own)
    | inr other ↦ rw other (h.ahead t (ground arith))
  ];
  ahead = λ u k. h.ahead u (omega arith);
  granted = h.granted;
  counted = λ s. absurd (ground arith);
  elected = λ s. absurd (ground arith);
}

pub entered-Grows :
    (b : Ballots) (f : Face) (t : ℕ)
    → f.term ≤ t
    → Honest b f
    → Grows b f (record (entered f t) { state = state_follower })
entered-Grows b f t up h = (refl, refl, (b, Later-refl f.id b, entered-Honest b f t up h))

pub pre_candidate-Grows :
    (b : Ballots) (f : Face)
    → Honest b f
    → Grows b f (record f { votes = []; state = state_pre_candidate })
pre_candidate-Grows b f h = (
  refl,
  refl,
  (
    b,
    Later-refl f.id b,
    record {
      some_id = h.some_id;
      sealed = h.sealed;
      own = h.own;
      ahead = h.ahead;
      granted = h.granted;
      counted = λ s. absurd (ground arith);
      elected = λ s. absurd (ground arith);
    },
  ),
)

-- The leader is elected.
pub leader-Grows :
    (b : Ballots) (f : Face)
    → Elected b f.voters f.term f.id
    → Honest b f
    → Grows b f (record (entered f f.term) { state = state_leader })
leader-Grows b f won h = (
  refl,
  refl,
  (
    b,
    Later-refl f.id b,
    record {
      some_id = h.some_id;
      sealed = h.sealed;
      own = ground (arith, h.own);
      ahead = h.ahead;
      granted = h.granted;
      counted = λ s. absurd (ground arith);
      elected = λ s. won;
    },
  ),
)

none_recorded : (k : ℕ) → lookup {V = Bool} [] k ≢ some true
unfolding lookup
none_recorded k = ground arith

-- A candidate votes for itself in the next term.
pub candidate-Grows :
    (b : Ballots) (f : Face)
    → Honest b f
    → Grows b f (record (entered f (f.term + 1)) { vote = f.id; state = state_candidate })
candidate-Grows b f h =
    let l =
      cast-Later b f.id (f.term + 1) f.id λ x e. absurd (ground (arith, h.ahead (f.term + 1))) in
    (
      refl,
      refl,
      (
        cast b f.id (f.term + 1) f.id,
        l,
        record {
          some_id = h.some_id;
          sealed = h.sealed;
          own = ground (arith, h.some_id);
          ahead = λ t k. ground (arith, h.ahead t);
          granted = IsCast-Later f.id b _ l f.grants h.granted;
          counted = λ s k v. absurd (none_recorded k v);
          elected = λ s. absurd (ground arith);
        },
      ),
    )

-- A vote for the candidate is counted.
pub votes-Grows :
    (b : Ballots) (f : Face) (v : Votes)
    → (f.state ≡ state_candidate → Supports b f.term f.id v)
    → Honest b f
    → Grows b f (record f { votes = v })
votes-Grows b f v sup h = (
  refl,
  refl,
  (
    b,
    Later-refl f.id b,
    record {
      some_id = h.some_id;
      sealed = h.sealed;
      own = h.own;
      ahead = h.ahead;
      granted = h.granted;
      counted = sup;
      elected = h.elected;
    },
  ),
)

pub grant-Honest :
    (b : Ballots) (f : Face) (g : Message)
    → IsCast b g
    → Honest b f
    → Honest b (record f { grants = f.grants ++ (g ∷ []) })
grant-Honest b f g c h = record {
  some_id = h.some_id;
  sealed = h.sealed;
  own = h.own;
  ahead = h.ahead;
  granted = All-append _ f.grants (g ∷ []) h.granted (c, tt);
  counted = h.counted;
  elected = h.elected;
}

-- A vote is granted where none was cast in the term, or the same.
pub vote-Grows :
    (b : Ballots) (f : Face) (c : ℕ)
    → c ≢ 0
    → f.term ≢ 0
    → (f.vote ≢ 0 → f.vote ≡ c)
    → Honest b f
    → Grows b f (record f { vote = c; grants = f.grants ++ (grant f.id c f.term ∷ []) })
vote-Grows b f c real termed same h =
    let l = cast-Later b f.id f.term c λ x e. ground (arith, h.own) in
    (
      refl,
      refl,
      (
        cast b f.id f.term c,
        l,
        record {
          some_id = h.some_id;
          sealed = h.sealed;
          own = ground arith;
          ahead = λ t k. ground (arith, h.ahead t);
          granted =
              All-append _ f.grants (grant f.id c f.term ∷ [])
                (IsCast-Later f.id b _ l f.grants h.granted) ((refl, ground arith, termed), tt);
          counted = λ s k v. l.0 k f.term f.id (h.counted s k v);
          elected = λ s. Elected-Later f.id b _ f.voters f.term f.id l (h.elected s);
        },
      ),
    )
