-- ===== src/Http/Transport/Sending.antt =====
-- raft/http/transport.go: which messages reach which peers and remotes.
use yyckv.Base.{
  ℕ, ◌≡◌, ◌≢◌, refl, ap, sym, ◌∙◌, subst, false, Option, none, some, List, [], ◌∷◌, lookup-insert,
  ◌==◌, if◌then◌else◌, arith, Bool-cases, Option-cases, inl, inr, ==_refl,
}
use yyckv.Pb.{Message}
use yyckv.Http.{UrlPicker, Peer}
use yyckv.Http
use yyckv.Http.Transport.{Transport, find, put, send_remote, send_one, send}

-- The messages to a node, in order.
abbrev pub messages_to : ℕ → List Message → List Message
messages_to id [] = []
messages_to id (m ∷ ms) = let rest = messages_to id ms in if m.to == id then m ∷ rest else rest

abbrev pub send_each : Peer → List Message → Peer
send_each p [] = p
send_each p (m ∷ ms) = send_each (Http.send p m) ms

find-put :
    {V : Type 0} (m : Option (List (ℕ × V))) (k j : ℕ) (v w : V)
    → find m k ≡ some w
    → find (put m k v) j ≡ (if k == j then some v else find m j)
find-put none k j v w e = absurd (ground (arith, e))
find-put (some m) k j v w e = lookup-insert m k j v

find-put_own :
    {V : Type 0} (m : Option (List (ℕ × V))) (k : ℕ) (v w : V)
    → find m k ≡ some w
    → find (put m k v) k ≡ some v
find-put_own m k v w e = find-put m k k v w e ∙ ap (λ b. if b then some v else find m k) (==_refl k)

find-put_other :
    {V : Type 0} (m : Option (List (ℕ × V))) (k j : ℕ) (v w : V)
    → find m k ≡ some w
    → (k == j) ≡ false
    → find (put m k v) j ≡ find m j
find-put_other m k j v w e other =
    find-put m k j v w e ∙ ap (λ b. if b then some v else find m j) other

-- The peer and the remote of a node, if there are.
abbrev pub Ends : Type 0 → Type 0
Ends U = Option (UrlPicker U × Peer) × Option (List Message)

module _ {U : Type 0} where
  abbrev pub ends : Transport U → ℕ → Ends U
  ends t id = (find t.peers id, find t.remotes id)

  -- The peer sends the message, or else the remote.
  abbrev pub deliver : Ends U → Message → Ends U
  deliver (some (picker, p), g) m = (some (picker, Http.send p m), g)
  deliver (none, some g) m = (none, some (send_remote g m))
  deliver (none, none) m = (none, none)

  abbrev pub deliver_all : Ends U → List Message → Ends U
  deliver_all e [] = e
  deliver_all e (m ∷ ms) = deliver_all (deliver e m) ms

  send_one_own :
      (t : Transport U) (m : Message)
      → m.to ≢ 0
      → ends (send_one t m) m.to ≡ deliver (ends t m.to) m
  unfolding send_one
  send_one_own t m real =
      let set : (m.to == 0) ≡ false = ground (arith, real) in
      elim (Option-cases (find t.peers m.to)) [
        | inr ((picker, p), e) ↦
            rw (send_one, set, e)
              (ap (λ x. (x, find t.remotes m.to))
                (find-put_own t.peers m.to (picker, Http.send p m) (picker, p) e))
        | inl e ↦ elim (Option-cases (find t.remotes m.to)) [
          | inl f ↦ rw (send_one, set, e, f) (λ i. (e i, f i))
          | inr (g, f) ↦
              rw (send_one, set, e, f)
                (λ i. (e i, find-put_own t.remotes m.to (send_remote g m) g f i))
        ]
      ]

  send_one_other :
      (t : Transport U) (m : Message) (id : ℕ)
      → (m.to == id) ≡ false
      → ends (send_one t m) id ≡ ends t id
  unfolding send_one
  send_one_other t m id other = elim (Bool-cases (m.to == 0)) [
    | inl unset ↦ rw (send_one, unset) refl
    | inr set ↦ elim (Option-cases (find t.peers m.to)) [
      | inr ((picker, p), e) ↦
          rw (send_one, set, e)
            (ap (λ x. (x, find t.remotes id))
              (find-put_other t.peers m.to id (picker, Http.send p m) (picker, p) e other))
      | inl e ↦ elim (Option-cases (find t.remotes m.to)) [
        | inl f ↦ rw (send_one, set, e, f) refl
        | inr (g, f) ↦
            rw (send_one, set, e, f)
              (ap (λ x. (find t.peers id, x))
                (find-put_other t.remotes m.to id (send_remote g m) g f other))
      ]
    ]
  ]

  -- For a node whose identity is not 0, the messages to it go to its peer, or without one to its remote, in
  -- order, and no others do; without either they are ignored.
  pub send-ends :
      (t : Transport U) (ms : List Message) (id : ℕ)
      → id ≢ 0
      → ends (send t ms) id ≡ deliver_all (ends t id) (messages_to id ms)
  unfolding send
  send-ends t [] id real = refl
  send-ends t (m ∷ ms) id real = elim (Bool-cases (m.to == id)) [
    | inl own ↦
        let e : m.to ≡ id = ground (arith, own) in
        rw own (
          send-ends (send_one t m) ms id real
          ∙ ap (λ s. deliver_all s (messages_to id ms))
              (subst (λ i. ends (send_one t m) i ≡ deliver (ends t i) m) e
                (send_one_own t m λ z. real (sym e ∙ z))))
    | inr other ↦ rw other (
        send-ends (send_one t m) ms id real
        ∙ ap (λ s. deliver_all s (messages_to id ms)) (send_one_other t m id other))
  ]

  -- A peer that is there sends the messages, and its picker stays.
  pub deliver_all-peer :
      (picker : UrlPicker U) (p : Peer) (g : Option (List Message)) (ms : List Message)
      → deliver_all (some (picker, p), g) ms ≡ (some (picker, send_each p ms), g)
  deliver_all-peer picker p g [] = refl
  deliver_all-peer picker p g (m ∷ ms) = deliver_all-peer picker (Http.send p m) g ms
