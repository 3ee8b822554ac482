-- ===== src/Raft/Face.antt =====
-- raft/core/raft.go: what elections depend on: the identity, term, vote and role of a node, its
-- configuration, the votes it has counted, and the votes it has granted and not sent yet.
use mathlib.Core.List.{append-nil}
use yyckv.Base.{
  ℕ, ◌≡◌, refl, ap, ◌∙◌, Bool, true, false, not, List, [], ◌∷◌, ◌++◌, Yields, Yields-bind,
  Yields-if, arith, if◌then◌else◌, ◌&&◌, ◌==◌, ◌||◌, Yields-test,
}
use yyckv.Pb.{Message, MessageType, msg_vote_resp}
use yyckv.Quorum.Joint.{JointConfig}
use yyckv.Quorum.Majority.{Votes}
use yyckv.Raft.{Raft, StateType}
use yyckv.Raft.Send.{send, with_sender, with_term, enqueue, is_durable_type}

abbrev pub is_vote_resp : MessageType → Bool
is_vote_resp msg_vote_resp = true
is_vote_resp _ = false

-- The message grants a vote.
abbrev pub is_grant : Message → Bool
is_grant m = is_vote_resp m.typ && not m.reject

-- The messages that matter for an election, among those that wait for the unstable state: the votes that
-- are granted, and any message of a type that does not wait.
abbrev pub matters : Message → Bool
matters m = is_grant m || not (is_durable_type m.typ)

abbrev pub grants_in : List Message → List Message
grants_in [] = []
grants_in (m ∷ ms) = let rest = grants_in ms in if matters m then m ∷ rest else rest

-- The votes that are granted among messages that may be sent at once.
abbrev pub released_in : List Message → List Message
released_in [] = []
released_in (m ∷ ms) = let rest = released_in ms in if is_grant m then m ∷ rest else rest

pub record Face : Type 0 where
  pub id : ℕ
  pub term : ℕ
  pub vote : ℕ
  pub state : StateType
  pub voters : JointConfig
  pub votes : Votes
  pub grants : List Message
  pub released : List Message

abbrev pub face : Raft → Face
face r = record {
  id = r.id;
  term = r.term;
  vote = r.vote;
  state = r.state;
  voters = r.trk.config.voters;
  votes = r.trk.votes;
  grants = grants_in r.msgs_after_append;
  released = released_in r.msgs;
}

-- The node `r'` has the face of `r`.
abbrev pub Steady : Raft → Raft → Type 0
Steady r r' = face r' ≡ face r

pub grants_in-append : (xs ys : List Message) → grants_in (xs ++ ys) ≡ grants_in xs ++ grants_in ys
grants_in-append [] ys = refl
grants_in-append (x ∷ xs) ys = ground (arith, grants_in-append xs ys)

grants_in-quiet :
    (xs : List Message) (m : Message)
    → is_grant m ≡ false
    → is_durable_type m.typ ≡ true
    → grants_in (xs ++ m ∷ []) ≡ grants_in xs
grants_in-quiet xs m quiet durable =
    rw (grants_in-append xs (m ∷ []), quiet, durable) (append-nil (grants_in xs))

released_in-quiet :
    (xs : List Message) (m : Message)
    → is_grant m ≡ false
    → released_in (xs ++ m ∷ []) ≡ released_in xs
released_in-quiet [] m quiet = rw quiet refl
released_in-quiet (x ∷ xs) m quiet = ground (arith, released_in-quiet xs m quiet)

enqueue-Steady : (r : Raft) (m : Message) → is_grant m ≡ false → Yields (enqueue r m) (Steady r)
unfolding enqueue
enqueue-Steady r m quiet =
    Yields-test (is_durable_type m.typ) _ _ _
      (λ durable.
        ap (λ g. record (face r) { grants = g })
          (grants_in-quiet r.msgs_after_append m quiet durable))
      λ other.
        Yields-if (m.to == r.id) _ _ _ tt
          (ap (λ g. record (face r) { released = g }) (released_in-quiet r.msgs m quiet))

with_sender-grant : (r : Raft) (m : Message) → is_grant (with_sender r m) ≡ is_grant m
unfolding with_sender
with_sender-grant r m = ground arith

with_term-grant : (r : Raft) (m : Message) → Yields (with_term r m) λ m'. is_grant m' ≡ is_grant m
unfolding with_term
with_term-grant r m = ground arith

-- Sending anything but a vote that is granted leaves the face alone.
pub send-Steady : (r : Raft) (m : Message) → is_grant m ≡ false → Yields (send r m) (Steady r)
unfolding send
send-Steady r m quiet =
    Yields-bind (with_term r (with_sender r m)) _ _ _ (with_term-grant r (with_sender r m))
      λ m' e. enqueue-Steady r m' (e ∙ with_sender-grant r m ∙ quiet)

-- The type of a message tells that it grants no vote.
pub not_grant :
    (t : MessageType) (m : Message) → t ≡ m.typ → is_vote_resp t ≡ false → is_grant m ≡ false
not_grant t m e h = rw (← e) (rw h refl)
