-- ===== src/Kv/Agree.antt =====
-- kv/kvstore.go, raftNode.go: what clients see of the stores.
use yyckv.Base.{
  Text, same_text_refl, ◌+◌, ◌<◌, ◌≡◌, refl, ap, sym, ◌∙◌, subst, Bool, true, Option, none, some,
  List, [], ◌∷◌, ◌++◌, length, take, All, ok, arith, ◌>>=◌, Option-cases, inl, inr, Yields,
}
use yyckv.Base.Word.{modulus}
use yyckv.Pb.{Entry, ConfChange}
use yyckv.Raft.Step.Terms.{after}
use yyckv.Kv.{RaftNode, serve_channels}
use yyckv.Kv.Publish.{IsRun, contents}
use yyckv.Kv.Replay.{IsBatch, serve_channels-replays}
use yyckv.Kv.Store.{KvData, put, lookup, propose, apply_commit, read_commits}

abbrev pub flatten : List (Option (List Text)) → List Text
flatten [] = []
flatten (none ∷ more) = flatten more
flatten (some ts ∷ more) = ts ++ flatten more

module _ (decode : Text → Option (Text × Text)) where
  apply_commit-append :
      (ts us : List Text) (d : KvData)
      → apply_commit decode d (ts ++ us)
        ≡ (apply_commit decode d ts >>= λ d'. apply_commit decode d' us)
  unfolding apply_commit
  apply_commit-append [] us d = refl
  apply_commit-append (t ∷ ts) us d = elim (Option-cases (decode t)) [
    | inl e ↦ rw (apply_commit, e) refl
    | inr ((key, val), e) ↦ rw (apply_commit, e) (apply_commit-append ts us (put d key val))
  ]

  read_commits-apply_commit :
      (d : KvData) (commits : List (Option (List Text)))
      → read_commits decode d commits ≡ apply_commit decode d (flatten commits)
  unfolding read_commits apply_commit
  read_commits-apply_commit d [] = refl
  read_commits-apply_commit d (none ∷ more) = read_commits-apply_commit d more
  read_commits-apply_commit d (some ts ∷ more) =
      ap (λ f. apply_commit decode d ts >>= f) (λ i d'. read_commits-apply_commit d' more i)
      ∙ sym (apply_commit-append ts (flatten more) d)

-- Two nodes that start with nothing applied serve batches of the same log, and go on until they have applied
-- the same index. Then their stores, from the same map, come to the same map or fail alike, whatever the
-- batches, and however the data is divided into commits.
pub replicas_agree :
    (unmarshal : Option Text → ConfChange) (decode : Text → Option (Text × Text)) (log : List Entry)
    (a b a' b' : RaftNode) (ws vs : List (Bool × List Entry)) (x y : List (Option (List Text)))
    (d : KvData)
    → IsRun 0 log
    → length log + 1 < modulus
    → a.applied_index ≡ 0
    → b.applied_index ≡ 0
    → All (λ w. IsBatch log w.1) ws
    → All (λ w. IsBatch log w.1) vs
    → serve_channels unmarshal a ws ≡ ok (a', flatten x, true)
    → serve_channels unmarshal b vs ≡ ok (b', flatten y, true)
    → a'.applied_index ≡ b'.applied_index
    → read_commits decode d x ≡ read_commits decode d y
replicas_agree unmarshal decode log a b a' b' ws vs x y d run fits za zb wa wb ea eb same =
    let (_, _, p) =
      serve_channels-replays unmarshal log a a' ws (flatten x) run fits (omega (arith, za)) wa ea in
    let (_, _, q) =
      serve_channels-replays unmarshal log b b' vs (flatten y) run fits (omega (arith, zb)) wb eb in
    let left : flatten x ≡ contents (take a'.applied_index log) =
      ap (λ n. contents (take n log) ++ flatten x) (sym za) ∙ p in
    let right : flatten y ≡ contents (take b'.applied_index log) =
      ap (λ n. contents (take n log) ++ flatten y) (sym zb) ∙ q in
    read_commits-apply_commit decode d x
    ∙ ap (apply_commit decode d) (left ∙ ap (λ n. contents (take n log)) same ∙ sym right)
    ∙ sym (read_commits-apply_commit decode d y)

-- If gob decodes what it encodes, and the proposal of a key and a value is the last data of those that a store
-- applies, then the store finds the value under the key, whatever was applied before.
pub propose-lookup :
    (encode : Text × Text → Option Text) (decode : Text → Option (Text × Text)) (key val t : Text)
    (ts : List Text) (d d' : KvData)
    → ((kv : Text × Text) (u : Text) → encode kv ≡ some u → decode u ≡ some kv)
    → propose encode key val ≡ ok t
    → apply_commit decode d (ts ++ (t ∷ [])) ≡ ok d'
    → lookup d' key ≡ some val
unfolding apply_commit
propose-lookup encode decode key val t ts d d' gob sent done =
    let encoded : encode (key, val) ≡ some t = ground (arith, sent) in
    let decoded = gob (key, val) t encoded in
    subst (λ m. Yields m λ e. e key ≡ some val)
      (sym (apply_commit-append decode ts (t ∷ []) d) ∙ done)
      (after (apply_commit decode d ts) _ _
        λ m. rw (apply_commit, decoded, same_text_refl key) refl)
