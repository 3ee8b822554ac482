-- ===== src/Kv/Store.antt =====
-- kv/kvstore.go: the map of a store and the commits that it reads. `encode` and `decode` are gob.
use yyckv.Base.{
  Text, same_text, Option, none, some, List, [], ◌∷◌, if◌then◌else◌, Fallible, ok, panic, fatal,
  ◌>>=◌,
}

abbrev pub KvData : Type 0
KvData = Text → Option Text

-- `s.data[key] = val`.
abbrev pub put : KvData → Text → Text → KvData
put d key val = λ k. if same_text key k then some val else d k

abbrev pub lookup : KvData → Text → Option Text
lookup d key = d key

-- The value that is sent on `proposeC`.
abbrev pub propose : (Text × Text → Option Text) → Text → Text → Fallible Text
propose encode key val = elim (encode (key, val)) [ none ↦ panic fatal | some t ↦ ok t ]

unfoldable pub apply_commit : (Text → Option (Text × Text)) → KvData → List Text → Fallible KvData
apply_commit decode d [] = ok d
apply_commit decode d (t ∷ ts) = elim (decode t) [
  | none ↦ panic fatal
  | some (key, val) ↦ apply_commit decode (put d key val) ts
]

-- The loop over `commitC`. A commit that is nil is passed over.
unfoldable pub read_commits :
    (Text → Option (Text × Text)) → KvData → List (Option (List Text)) → Fallible KvData
unfolding apply_commit
read_commits decode d [] = ok d
read_commits decode d (none ∷ more) = read_commits decode d more
read_commits decode d (some ts ∷ more) =
    apply_commit decode d ts >>= λ d'. read_commits decode d' more
