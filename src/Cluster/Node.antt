-- ===== src/Cluster/Node.antt =====
-- raft/core/rawnode.go: what the calls of an application make of the ballots, the votes that a node sends
-- and those that wait for the next `Advance`.
use yyckv.Base.{
  ℕ, ◌≡◌, refl, Bool, true, false, List, [], ◌∷◌, arith, All, Bool-cases, inl, inr, ◌==◌,
  if◌then◌else◌,
}
use yyckv.Pb.{Message, MessageType, msg_app_resp, msg_vote_resp, msg_pre_vote_resp}
use yyckv.Raft.Send.{is_durable_type}
use yyckv.Raft.Step.{from_new_leader, is_vote}
use yyckv.Raft.Face.{is_grant, matters, is_vote_resp, grants_in, released_in}
use yyckv.Raft.Ballots.{Ballots, IsCast, Later}
use yyckv.Raft.Ballots.Handle.{Vouched}
use yyckv.RawNode.{to_others, to_self}

-- A vote that is granted was cast.
abbrev pub Told : Ballots → Message → Type 0
Told b m = is_grant m ≡ true → IsCast b m

-- A message of a node to itself.
abbrev pub Queued : Ballots → ℕ → Message → Type 0
Queued b id m = (is_durable_type m.typ ≡ true) × Vouched b id m

pub Told-Later :
    (n : ℕ) (b b' : Ballots) (ms : List Message) → Later n b b' → All (Told b) ms → All (Told b') ms
Told-Later n b b' [] l h = tt
Told-Later n b b' (m ∷ ms) l h =
    (λ g. let c = h.0 g in (c.0, l.0 _ _ _ c.1, c.2), Told-Later n b b' ms l h.1)

pub Queued-Later :
    (n : ℕ) (b b' : Ballots) (id : ℕ) (ms : List Message)
    → Later n b b'
    → All (Queued b id) ms
    → All (Queued b' id) ms
Queued-Later n b b' id [] l h = tt
Queued-Later n b b' id (m ∷ ms) l h = (
  (h.0.0, λ g. let (c, to) = h.0.1 g in ((c.0, l.0 _ _ _ c.1, c.2), to)),
  Queued-Later n b b' id ms l h.1,
)

pub released-Told : (b : Ballots) (ms : List Message) → released_in ms ≡ [] → All (Told b) ms
released-Told b [] h = tt
released-Told b (m ∷ ms) h = elim (Bool-cases (is_grant m)) [
  | inl granted ↦ absurd (ground (arith, h, granted))
  | inr quiet ↦
      (λ g. absurd (ground (arith, g, quiet)), released-Told b ms (ground (arith, h, quiet)))
]

resp_durable : (t : MessageType) → is_vote_resp t ≡ true → is_durable_type t ≡ true
resp_durable msg_vote_resp h = refl
resp_durable _ h = absurd (ground arith)

pub durable_plain :
    (t : MessageType) → is_durable_type t ≡ true → (from_new_leader t ≡ false) × (is_vote t ≡ false)
durable_plain msg_app_resp h = (refl, refl)
durable_plain msg_vote_resp h = (refl, refl)
durable_plain msg_pre_vote_resp h = (refl, refl)
durable_plain _ h = absurd (ground arith)

-- The first message, and the others.
uncons :
    (b : Ballots) (m : Message) (ms : List Message)
    → All (IsCast b) (grants_in (m ∷ ms))
    → Queued b m.to m × All (IsCast b) (grants_in ms)
uncons b m ms h = split (matters m) refl h
  where
    split :
        (x : Bool)
        → matters m ≡ x
        → All (IsCast b) (if x then m ∷ grants_in ms else grants_in ms)
        → Queued b m.to m × All (IsCast b) (grants_in ms)
    split true e k = ((resp_durable m.typ (ground (arith, k.0.0)), λ g. (k.0, refl)), k.1)
    split false e k = ((ground (arith, e), λ g. absurd (ground (arith, e, g))), k)

pub others-Told :
    (b : Ballots) (id : ℕ) (ms : List Message)
    → All (IsCast b) (grants_in ms)
    → All (Told b) (to_others id ms)
unfolding to_others
others-Told b id [] h = tt
others-Told b id (m ∷ ms) h =
    let (q, rest) = uncons b m ms h in
    let more = others-Told b id ms rest in
    elim (Bool-cases (m.to == id)) [
      | inl own ↦ rw own more
      | inr other ↦ rw other (λ g. (q.1 g).0, more)
    ]

pub self-Queued :
    (b : Ballots) (id : ℕ) (ms : List Message)
    → All (IsCast b) (grants_in ms)
    → All (Queued b id) (to_self id ms)
unfolding to_self
self-Queued b id [] h = tt
self-Queued b id (m ∷ ms) h =
    let (q, rest) = uncons b m ms h in
    let more = self-Queued b id ms rest in
    elim (Bool-cases (m.to == id)) [
      | inl own ↦ rw own ((q.0, λ g. ((q.1 g).0, ground (arith, own))), more)
      | inr other ↦ rw other more
    ]
