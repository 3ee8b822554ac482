-- ===== src/Kv/Publish.antt =====
-- kv/raftNode.go: the entries that are applied, and the data that is published.
use yyckv.Base.{
  Text, ℕ, zero, suc, Bool, Yields-if, ◌==◌, ◌||◌, ltb, leb, if◌then◌else◌, sub_slice, Bool-cases,
  inl, inr, ◌+◌, ◌-◌, ◌≤◌, ◌<◌, ◌≡◌, refl, ap, sym, ◌∙◌, true, false, Option, List, [], ◌∷◌, ◌++◌,
  length, drop, ok, panic, fatal, arith, Yields, Yields-bind, take-drop_end,
}
use mathlib.Core.List.{append_assoc}
use mathlib.Core.Path.{ap₂}
use yyckv.Base.Word.{modulus, add64, sub64, add64_exact}
use yyckv.Pb.{Entry, EntryType, entry_normal, entry_conf_change, entry_conf_change_v2, ConfChange}
use yyckv.Raft.Conf.{apply_conf_change}
use yyckv.Kv.{
  RaftNode, entries_to_apply, proposal, call_peers, publish_entry, publish_all, publish_entries,
  last_of,
}
use yyckv.Raft.Step.Terms.{after}

-- The entries come right after the index `n`, in order.
abbrev pub IsRun : ℕ → List Entry → Type 0
IsRun n [] = Unit
IsRun n (e ∷ es) = (e.index ≡ suc n) × IsRun (suc n) es

drop_all {ℓ} : {A : Type ℓ} (k : ℕ) (xs : List A) → length xs ≤ k → drop k xs ≡ []
drop_all zero [] h = refl
drop_all zero (x ∷ xs) h = absurd (omega arith)
drop_all (suc k) [] h = refl
drop_all (suc k) (x ∷ xs) h = drop_all k xs (omega arith)

tail_of :
    (k : ℕ) (xs : List Entry)
    → (if ltb k (length xs) then sub_slice xs k (length xs) else ok []) ≡ ok (drop k xs)
tail_of k xs = elim (Bool-cases (ltb k (length xs))) [
  | inl within ↦
      let low : leb k (length xs) ≡ true = ground (arith, within) in
      let high : leb (length xs) (length xs) ≡ true = ground arith in
      rw (within, low, high) (ap ok (take-drop_end k xs))
  | inr beyond ↦ rw beyond (ap ok (sym (drop_all k xs (ground (arith, beyond)))))
]

skipped :
    (n applied first : ℕ)
    → first ≡ suc n
    → n ≤ applied
    → applied + 1 < modulus
    → add64 (sub64 applied first) 1 ≡ applied - n
unfolding add64 sub64
skipped n applied first e h room = omega arith

-- Of the committed entries that come right after the index `n`, those up to the applied index are dropped and
-- the others kept, in order; if entries are missing in between, the process ends. Indices are below the last word.
pub entries_to_apply_lem :
    (n applied : ℕ) (e : Entry) (es : List Entry)
    → IsRun n (e ∷ es)
    → n + length (e ∷ es) + 1 < modulus
    → applied + 1 < modulus
    → (n ≤ applied → entries_to_apply applied (e ∷ es) ≡ ok (drop (applied - n) (e ∷ es)))
      × (applied < n → entries_to_apply applied (e ∷ es) ≡ panic fatal)
unfolding entries_to_apply
entries_to_apply_lem n applied e es run fits room = (
  λ reached.
      let on_time : ltb (add64 applied 1) e.index ≡ false =
        ground (arith, add64_exact applied 1 room, run.0) in
      rw (on_time, skipped n applied e.index run.0 reached room) (tail_of (applied - n) (e ∷ es)),
  λ missing.
      let late : ltb (add64 applied 1) e.index ≡ true =
        ground (arith, add64_exact applied 1 room, run.0) in
      rw late refl,
)

-- The data that the entries hold.
abbrev pub content : EntryType → Option Text → List Text
content entry_normal payload = proposal payload
content entry_conf_change payload = []
content entry_conf_change_v2 payload = []

abbrev pub contents : List Entry → List Text
contents [] = []
contents (e ∷ es) = content e.typ e.payload ++ contents es

pub contents-append : (xs ys : List Entry) → contents (xs ++ ys) ≡ contents xs ++ contents ys
contents-append [] ys = refl
contents-append (x ∷ xs) ys =
    ap (◌++◌ (content x.typ x.payload)) (contents-append xs ys)
    ∙ sym (append_assoc (content x.typ x.payload) (contents xs) (contents ys))

call_peers-applied :
    (r : RaftNode) (cc : ConfChange) → (call_peers r cc).0.applied_index ≡ r.applied_index
unfolding call_peers
call_peers-applied r cc = ground arith

publish_entry-content :
    (unmarshal : Option Text → ConfChange) (r : RaftNode) (t : EntryType) (payload : Option Text)
    → Yields
        (publish_entry unmarshal r t payload)
        λ s. (s.0.applied_index ≡ r.applied_index) × (s.2 ≡ true → s.1 ≡ content t payload)
unfolding publish_entry
publish_entry-content unmarshal r entry_normal payload = (refl, λ k. refl)
publish_entry-content unmarshal r entry_conf_change payload =
    after (apply_conf_change r.raft _) _ _
      λ s. (call_peers-applied _ (unmarshal payload), λ k. refl)
publish_entry-content unmarshal r entry_conf_change_v2 payload = (refl, λ k. refl)

publish_all-contents :
    (unmarshal : Option Text → ConfChange) (r : RaftNode) (es : List Entry)
    → Yields
        (publish_all unmarshal r es)
        λ s. (s.0.applied_index ≡ r.applied_index) × (s.2 ≡ true → s.1 ≡ contents es)
unfolding publish_all
publish_all-contents unmarshal r [] = (refl, λ k. refl)
publish_all-contents unmarshal r (e ∷ es) =
    Yields-bind (publish_entry unmarshal r e.typ e.payload) _ _ _
      (publish_entry-content unmarshal r e.typ e.payload)
      λ s h. elim (Bool-cases s.2) [
        | inl stays ↦ rw stays (
            Yields-bind (publish_all unmarshal s.0 es) _ _ _ (publish_all-contents unmarshal s.0 es)
              λ t k. (k.0 ∙ h.0, λ all. ap₂ ◌++◌ (h.1 stays) (k.1 all)))
        | inr gone ↦ rw gone (h.0, λ all. absurd (ground (arith, all, gone)))
      ]

pub publish_entries-contents :
    (unmarshal : Option Text → ConfChange) (r : RaftNode) (taken : Bool) (es : List Entry)
    → Yields
        (publish_entries unmarshal r taken es)
        λ s. s.2 ≡ true → (s.1 ≡ contents es) × (s.0.applied_index ≡ last_of r.applied_index es)
unfolding publish_entries
publish_entries-contents unmarshal r taken [] = λ k. (refl, refl)
publish_entries-contents unmarshal r taken (e ∷ es) =
    Yields-bind (publish_all unmarshal r (e ∷ es)) _ _ _ (publish_all-contents unmarshal r (e ∷ es))
      λ s h. elim (Bool-cases s.2) [
        | inl stays ↦ rw stays (
            Yields-if (length s.1 == 0 || taken) _ _ _ (λ k. (h.1 stays, refl))
              (λ k. absurd (ground (arith, k))))
        | inr gone ↦ rw gone (λ k. absurd (ground (arith, k)))
      ]
