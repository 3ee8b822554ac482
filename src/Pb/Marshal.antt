-- ===== src/Pb/Marshal.antt =====
-- raft/raftpb: pbutils.go, and from confchange.go `MarshalConfChange` and `LeaveJoint`. The generated methods
-- are arguments, and `none` is an error of theirs.
use yyckv.Base.{
  ℕ, Bool, true, false, Option, none, some, List, length, ◌==◌, ◌&&◌, Fallible, ok, panic, raised,
}
use yyckv.Pb.Types.{EntryType, entry_conf_change, entry_conf_change_v2}
use yyckv.Pb.Change.{
  ConfChange, ConfChangeI, ConfChangeV2, ConfChangeTransition, auto, as_v1, as_v2,
}

abbrev pub must_marshal {ℓ} : {A : Type ℓ} → (A → Option (List ℕ)) → A → Fallible (List ℕ)
must_marshal marshal a = elim (marshal a) [ none ↦ panic raised | some d ↦ ok d ]

abbrev pub must_unmarshal {ℓ} : {A : Type ℓ} → (List ℕ → Option A) → List ℕ → Fallible A
must_unmarshal unmarshal d = elim (unmarshal d) [ none ↦ panic raised | some a ↦ ok a ]

-- The first result is the value that is there after the call.
abbrev pub maybe_unmarshal {ℓ} : {A : Type ℓ} → (List ℕ → A × Bool) → List ℕ → A × Bool
maybe_unmarshal unmarshal d = unmarshal d

unfoldable pub marshal_conf_change :
    (ConfChange → Option (List ℕ))
    → (ConfChangeV2 → Option (List ℕ))
    → Option ConfChangeI
    → EntryType × Option (Option (List ℕ))
marshal_conf_change marshal_v1 marshal_v2 none = (entry_conf_change_v2, some none)
marshal_conf_change marshal_v1 marshal_v2 (some c) = elim (as_v1 c) [
  | some cc ↦ (entry_conf_change, elim (marshal_v1 cc) [ none ↦ none | some d ↦ some (some d) ])
  | none ↦
      (entry_conf_change_v2, elim (marshal_v2 (as_v2 c)) [ none ↦ none | some d ↦ some (some d) ])
]

abbrev is_auto : ConfChangeTransition → Bool
is_auto auto = true
is_auto _ = false

-- Whether all but the context is zero.
unfoldable pub leave_joint : ConfChangeV2 → Bool
leave_joint c = is_auto c.transition && length c.changes == 0
