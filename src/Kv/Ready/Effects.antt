-- ===== src/Kv/Ready/Effects.antt =====
-- kv/raftNode.go: what serving a `Ready` does to the storage, the peers and the store.
use yyckv.Base.{
  Text, ℕ, ◌+◌, ◌≤◌, ◌<◌, max, ◌≡◌, ◌≢◌, refl, ap, sym, ◌∙◌, subst, Bool, false, Option, none, some,
  List, [], ◌∷◌, length, All, lookup-insert, lookup, insert, ltb, leb, ◌==◌, ◌||◌, if◌then◌else◌,
  arith, Bool-cases, Option-cases, inl, inr, ok, Yields, Yields-bind, Returns-value, Yields-every,
}
use yyckv.Base.Word.{modulus}
use yyckv.Pb.{ConfChange, ConfState, Entry, Message}
use yyckv.RawNode.{Ready}
use yyckv.Storage.Memory.{MemoryStorage}
use yyckv.Storage.Memory
use yyckv.Http.{is_msg_snap, UrlPicker, Peer}
use yyckv.Http.Transport.{Transport, find}
use yyckv.Http.Transport
use yyckv.Http.Transport.Sending.{messages_to, deliver_all, deliver_all-peer, send_each, send-ends}
use yyckv.Kv.{PeerCall, add_peer, remove_peer, serve_committed}
use yyckv.Kv.Proposals.{process_messages}
use yyckv.Kv.Publish.{IsRun}
use yyckv.Kv.Replay.{IsBatch, Goes, serve_committed-Goes}
use yyckv.Unstable.View.{Contiguous, run_at}
use yyckv.Storage.Memory.Laws.{IsValid}
use yyckv.Storage.Memory.Append.{append-overwrites}
use yyckv.Kv.Ready.{App, with_storage, call_transport, serve_ready}

-- None is a snapshot.
abbrev pub ArePlain : List Message → Type 0
ArePlain = All λ m. is_msg_snap m.typ ≡ false

process_messages-plain :
    (cs : ConfState) (ms : List Message) → ArePlain ms → process_messages cs ms ≡ ok ms
unfolding process_messages
process_messages-plain cs [] h = refl
process_messages-plain cs (m ∷ ms) h =
    rw (process_messages, h.0, process_messages-plain cs ms h.1) refl

insert-keeps :
    {V : Type 0} (m : List (ℕ × V)) (id j : ℕ) (v w : V)
    → lookup m id ≡ none
    → lookup m j ≡ some w
    → lookup (insert m id v) j ≡ some w
insert-keeps m id j v w free here =
    let apart : id ≢ j = λ e. ground (arith, free, subst (λ k. lookup m k ≡ some w) (sym e) here) in
    let other : (id == j) ≡ false = ground (arith, apart) in
    lookup-insert m id j v ∙ ap (λ b. if b then some v else lookup m j) other ∙ here

module _ {U : Type 0} (new_urls : List Text → Option (List U)) where
  -- A peer that is there stays as it is.
  add_peer-keeps :
      (t : Transport U) (id : ℕ) (us : List Text) (j : ℕ) (p : UrlPicker U × Peer)
      → find t.peers j ≡ some p
      → Yields (Transport.add_peer new_urls t id us) λ t'. find t'.peers j ≡ some p
  unfolding Transport.add_peer
  add_peer-keeps t id us j p here = elim (Option-cases t.peers) [
    | inl nil ↦ rw (Transport.add_peer, nil) tt
    | inr (m, there) ↦
        let kept : lookup m j ≡ some p = ap (λ x. find x j) (sym there) ∙ here in
        elim (Option-cases (lookup m id)) [
          | inr (q, old) ↦ rw (Transport.add_peer, there, old) here
          | inl free ↦ elim (Option-cases (new_urls us)) [
            | inr (urls, good) ↦
                rw (Transport.add_peer, there, free, good) (insert-keeps m id j _ p free kept)
            | inl bad ↦ elim (Bool-cases t.has_logger) [
              | inl logs ↦ rw (Transport.add_peer, there, free, bad, logs) tt
              | inr silent ↦
                  rw (Transport.add_peer, there, free, bad, silent)
                    (insert-keeps m id j _ p free kept)
            ]
          ]
        ]
  ]

  call_transport-keeps :
      (t : Transport U) (calls : List PeerCall) (j : ℕ) (p : UrlPicker U × Peer)
      → find t.peers j ≡ some p
      → Yields (call_transport new_urls t calls) λ t'. find t'.peers j ≡ some p
  unfolding call_transport
  call_transport-keeps t [] j p here = here
  call_transport-keeps t (add_peer id us ∷ calls) j p here =
      Yields-bind (Transport.add_peer new_urls t id us) _ _ _ (add_peer-keeps t id us j p here)
        λ t' k. call_transport-keeps t' calls j p k
  call_transport-keeps t (remove_peer id ∷ calls) j p here = call_transport-keeps t calls j p here

module _ {U : Type 0} where
  -- What a peer that is there makes of the messages.
  sent_to :
      (t : Transport U) (ms : List Message) (j : ℕ) (p : UrlPicker U × Peer)
      → j ≢ 0
      → find t.peers j ≡ some p
      → find (Transport.send t ms).peers j ≡ some (p.0, send_each p.1 (messages_to j ms))
  sent_to t ms j p real here =
      ap (λ e. e.0)
        (send-ends t ms j real
          ∙ ap (λ x. deliver_all (x, find t.remotes j) (messages_to j ms)) here
          ∙ deliver_all-peer p.0 p.1 (find t.remotes j) (messages_to j ms))

-- The storage overwrites its entries from the first new one on.
abbrev pub Stores : ℕ → ℕ → List Entry → MemoryStorage → MemoryStorage → Type 0
Stores base n es m m' =
    IsValid m' base
    × ((i : ℕ)
        → run_at base m'.ents i ≡ (
            if ltb i (max n (base + 1)) || leb (n + length es) (base + 1)
            then run_at base m.ents i
            else run_at n es i))

abbrev pub Keeps : ℕ → ℕ → List Entry → MemoryStorage → MemoryStorage → Type 0
Keeps base n es m m' = (es ≡ [] → m' ≡ m) × (0 < length es → Stores base n es m m')

append-Keeps :
    (m : MemoryStorage) (base n : ℕ) (es : List Entry)
    → IsValid m base
    → Contiguous n es
    → n ≤ base + length m.ents
    → n + length es < modulus
    → Yields (Memory.append m es) (Keeps base n es m)
unfolding Memory.append
append-Keeps m base n [] v run near room = (λ e. refl, λ h. absurd (omega (arith, h)))
append-Keeps m base n (e ∷ es) v run near room =
    let (m', done, kept) =
      Returns-value (Memory.append m (e ∷ es)) _
        (append-overwrites m base v n (e ∷ es) run near room (omega arith)) in
    rw done (λ nil. absurd (ground (arith, nil)), λ h. kept)

module _ {U : Type 0} (new_urls : List Text → Option (List U))
    (unmarshal : Option Text → ConfChange) where
  calls_keep :
      (t : Transport U) (calls : List PeerCall)
      → Yields (call_transport new_urls t calls) λ t'.
        (i : (j : ℕ) × (p : UrlPicker U × Peer) × (find t.peers j ≡ some p))
        → find t'.peers i.0 ≡ some i.1
  calls_keep t calls =
      Yields-every (call_transport new_urls t calls) _
        λ i. call_transport-keeps new_urls t calls i.0 i.1 i.2

  -- The entries are stored, each peer that is there gets the messages to it in order, and the data of the
  -- log is published up to the index that is applied.
  abbrev pub Serves : ℕ → ℕ → List Entry → App U → Ready → App U × List Text × Bool → Type 0
  Serves base n log app rd s =
      Keeps base n rd.entries app.storage s.0.storage
      × Goes log app.node (s.0.node, s.1, s.2)
      × ((j : ℕ) (p : UrlPicker U × Peer)
          → j ≢ 0
          → find app.transport.peers j ≡ some p
          → find s.0.transport.peers j ≡ some (p.0, send_each p.1 (messages_to j rd.messages)))

  -- Serving a `Ready` with consecutive entries that leave no gap in the storage, no snapshots, and a batch of
  -- the log of committed entries either panics, or stores the entries over those from the first new one on,
  -- hands each peer that is there the messages to it, in order, and, if the loop goes on, publishes the data of
  -- the log up to the index that is then applied.
  pub serve_ready-Serves :
      (log : List Entry) (app : App U) (taken : Bool) (rd : Ready) (base n : ℕ)
      → IsValid app.storage base
      → Contiguous n rd.entries
      → n ≤ base + length app.storage.ents
      → n + length rd.entries < modulus
      → ArePlain rd.messages
      → IsRun 0 log
      → length log + 1 < modulus
      → app.node.applied_index ≤ length log
      → IsBatch log rd.committed_entries
      → Yields (serve_ready new_urls unmarshal app taken rd) (Serves base n log app rd)
  unfolding serve_ready
  serve_ready-Serves log app taken rd base n v entries near room plain run fits low batch =
      Yields-bind (Memory.append app.storage rd.entries) _ _ _
        (append-Keeps app.storage base n rd.entries v entries near room)
        λ m kept.
          let t = Transport.send app.transport rd.messages in
          rw (process_messages-plain app.node.conf_state rd.messages plain) (
            Yields-bind
              (serve_committed unmarshal (with_storage app.node m) taken rd.committed_entries) _ _ _
              (serve_committed-Goes unmarshal log (with_storage app.node m) taken
                rd.committed_entries run fits low batch)
              λ s goes.
                Yields-bind (call_transport new_urls t s.0.calls) _ _ _ (calls_keep t s.0.calls)
                  λ t' keeps. (
                    kept,
                    goes,
                    λ j p real here. keeps (
                      j,
                      (p.0, send_each p.1 (messages_to j rd.messages)),
                      sent_to app.transport rd.messages j p real here,
                    ),
                  ))
