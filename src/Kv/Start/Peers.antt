-- ===== src/Kv/Start/Peers.antt =====
-- kv/raftNode.go: the peers that a node starts with.
use yyckv.Base.{
  Text, ℕ, zero, suc, ◌+◌, ◌<◌, ◌≡◌, ◌≢◌, refl, ap, sym, ◌∙◌, subst, true, false, Option, none,
  some, List, [], ◌∷◌, All, get_elem?, lookup, insert, lookup-insert, leb, ◌==◌, if◌then◌else◌,
  arith, Bool-cases, inl, inr, ok, Returns, Returns-map, Option-cases,
}
use yyckv.Http.{UrlPicker, new_url_picker, Peer}
use yyckv.Http.Transport.{Transport, find, start_peer, add_peer, get}
use yyckv.Http.Transport
use yyckv.Kv.Start.{add_peers, start_transport}

module _ {U : Type 0} (new_urls : List Text → Option (List U)) where
  -- `NewURLs` accepts the URL of each peer.
  abbrev pub AreUrls : List Text → Type 0
  AreUrls = All λ s. new_urls (s ∷ []) ≢ none

  -- A new peer with the identity `j`, for the URL, if there is one.
  abbrev new_peer : ℕ → Option Text → Option (UrlPicker U × Peer)
  new_peer j none = none
  new_peer j (some s) = elim (new_urls (s ∷ [])) [
    | none ↦ none
    | some us ↦ some (new_url_picker us, start_peer j)
  ]

  -- The peer with the identity `j` that the URLs give, the first of which has the number `i`.
  abbrev pub peer_of : ℕ → ℕ → List Text → ℕ → Option (UrlPicker U × Peer)
  peer_of id i [] j = none
  peer_of id i (s ∷ strs) j =
      let rest = peer_of id (suc i) strs j in
      if j == suc i then (if j == id then none else new_peer j (some s)) else rest

  -- The peers that are there, or those that the URLs give.
  abbrev Adds : ℕ → ℕ → List Text → List (ℕ × (UrlPicker U × Peer)) → Transport U → Type 0
  Adds id i strs m t = (j : ℕ) → get t j ≡ (if leb j i then lookup m j else peer_of id i strs j)

  -- With the peer that the first URL gives.
  abbrev first : ℕ → ℕ → Text → Option (UrlPicker U × Peer)
  first id i s = if suc i == id then none else new_peer (suc i) (some s)

  peer_of_first :
      (id i : ℕ) (s : Text) (strs : List Text) (j : ℕ)
      → (j ≡ suc i → peer_of id i (s ∷ strs) j ≡ first id i s)
        × (j ≢ suc i → peer_of id i (s ∷ strs) j ≡ peer_of id (suc i) strs j)
  peer_of_first id i s strs j = (
    λ e.
        subst (λ k. peer_of id i (s ∷ strs) k ≡ first id i s) (sym e)
          (let same : (suc i == suc i) ≡ true = ground arith in rw same refl),
    λ e. let other : (j == suc i) ≡ false = ground (arith, e) in rw other refl,
  )

  Adds-first :
      (id i : ℕ) (s : Text) (strs : List Text) (m m' : List (ℕ × (UrlPicker U × Peer)))
      (t : Transport U)
      → ((j : ℕ) → lookup m' j ≡ (if suc i == j then first id i s else lookup m j))
      → Adds id (suc i) strs m' t
      → Adds id i (s ∷ strs) m t
  Adds-first id i s strs m m' t set h j = h j ∙ ground (arith, set j, peer_of_first id i s strs j)

  add_peer-adds :
      (t : Transport U) (m : List (ℕ × (UrlPicker U × Peer))) (i : ℕ) (s : Text) (us : List U)
      → t.peers ≡ some m
      → lookup m i ≡ none
      → new_urls (s ∷ []) ≡ some us
      → add_peer new_urls t i (s ∷ [])
        ≡ ok (record t { peers = some (insert m i (new_url_picker us, start_peer i)) })
  unfolding add_peer
  add_peer-adds t m i s us here fresh good = rw (add_peer, here, fresh, good) refl

  add_peers-Adds :
      (id i : ℕ) (strs : List Text) (t : Transport U) (m : List (ℕ × (UrlPicker U × Peer)))
      → t.peers ≡ some m
      → ((j : ℕ) → i < j → lookup m j ≡ none)
      → AreUrls strs
      → Returns (add_peers new_urls id i strs t) (Adds id i strs m)
  unfolding add_peers
  add_peers-Adds id i [] t m here fresh good =
      λ j. ap (λ p. find p j) here ∙ ground (arith, fresh j)
  add_peers-Adds id i (s ∷ strs) t m here fresh good = elim (Bool-cases (suc i == id)) [
    | inl self ↦
        rw (add_peers, self)
          (Returns-map (add_peers new_urls id (suc i) strs t) _ _
            (add_peers-Adds id (suc i) strs t m here (λ j h. fresh j (omega (arith, h))) good.1)
            λ t' h. Adds-first id i s strs m m t' (λ j. ground (arith, self, fresh j)) h)
    | inr other ↦ elim (Option-cases (new_urls (s ∷ []))) [
      | inl bad ↦ absurd (good.0 bad)
      | inr (us, e) ↦
          let m' = insert m (suc i) (new_url_picker us, start_peer (suc i)) in
          let set : (j : ℕ)
              → lookup m' j ≡ (
                  if suc i == j then some (new_url_picker us, start_peer (suc i)) else lookup m j) =
            λ j. lookup-insert m (suc i) j (new_url_picker us, start_peer (suc i)) in
          rw (add_peers, other, add_peer-adds t m (suc i) s us here (fresh (suc i) (omega arith)) e)
            (Returns-map (add_peers new_urls id (suc i) strs (record t { peers = some m' })) _ _
              (add_peers-Adds id (suc i) strs (record t { peers = some m' }) m' refl
                (λ j h. ground (arith, set j, fresh j)) good.1)
              λ t' h. Adds-first id i s strs m m' t' (λ j. ground (arith, other, set j, e)) h)
    ]
  ]

  peer_of_self : (id i : ℕ) (strs : List Text) → peer_of id i strs id ≡ none
  peer_of_self id i [] = refl
  peer_of_self id i (s ∷ strs) =
      let self : (id == id) ≡ true = ground arith in
      elim (Bool-cases (id == suc i)) [
        | inl here ↦ rw (here, self) refl
        | inr later ↦ rw later (peer_of_self id (suc i) strs)
      ]

  peer_of_other :
      (id i k : ℕ) (strs : List Text) (s : Text) (us : List U)
      → get_elem? strs k ≡ some s
      → suc (i + k) ≢ id
      → new_urls (s ∷ []) ≡ some us
      → peer_of id i strs (suc (i + k)) ≡ some (new_url_picker us, start_peer (suc (i + k)))
  peer_of_other id i k [] s us at other good = absurd (ground (arith, at))
  peer_of_other id i zero (t ∷ strs) s us at other good =
      let here : suc (i + 0) ≡ suc i = omega arith in
      let away : (suc i == id) ≡ false = ground (arith, other) in
      let same : t ≡ s = ground (arith, at) in
      (peer_of_first id i t strs (suc (i + 0))).0 here
      ∙ ap (λ b. if b then none else new_peer (suc i) (some t)) away
      ∙ ap (λ x. new_peer (suc i) (some x)) same
      ∙ ap (λ o. elim o [ none ↦ none | some vs ↦ some (new_url_picker vs, start_peer (suc i)) ])
          good
      ∙ ap (λ n. some (new_url_picker us, start_peer n)) (sym here)
  peer_of_other id i (suc k) (t ∷ strs) s us at other good =
      let shift : suc i + k ≡ i + suc k = omega arith in
      (peer_of_first id i t strs (suc (i + suc k))).1 (λ e. absurd (omega (arith, e)))
      ∙ subst (λ n. peer_of id (suc i) strs (suc n) ≡ some (new_url_picker us, start_peer (suc n)))
          shift (peer_of_other id (suc i) k strs s us at (λ e. other (ap suc (sym shift) ∙ e)) good)

  -- If the round trippers can be made, and `NewURLs` accepts the URL of each peer, a node starts with a peer for
  -- each node of the cluster but itself, with a picker of its URLs; the nodes are counted from 1.
  pub start_transport-get :
      (id : ℕ) (peers : List Text)
      → 0 < id
      → AreUrls peers
      → Returns (start_transport new_urls id peers true true) λ t.
        (get t id ≡ none)
        × ((k : ℕ) (s : Text) (us : List U)
            → get_elem? peers k ≡ some s
            → suc k ≢ id
            → new_urls (s ∷ []) ≡ some us
            → get t (suc k) ≡ some (new_url_picker us, start_peer (suc k)))
  unfolding start_transport Transport.start lookup
  start_transport-get id peers real good =
      Returns-map (add_peers new_urls id 0 peers _) _ _
        (add_peers-Adds id 0 peers _ [] refl (λ j h. refl) good)
        λ t h. (
          h id ∙ ground (arith, real, peer_of_self id 0 peers),
          λ k s us at other given.
              let z : 0 + k ≡ k = omega arith in
              let found : peer_of id 0 peers (suc k)
                  ≡ some (new_url_picker us, start_peer (suc k)) =
                subst
                  (λ n. peer_of id 0 peers (suc n) ≡ some (new_url_picker us, start_peer (suc n))) z
                  (peer_of_other id 0 k peers s us at (λ e. other (ap suc (sym z) ∙ e)) given) in
              h (suc k) ∙ ground (arith, found),
        )
