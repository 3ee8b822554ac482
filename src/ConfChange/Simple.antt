-- ===== src/ConfChange/Simple.antt =====
-- raft/core/confchange/confchange.go: what `Simple` makes of a configuration.
use yyckv.Base.{
  ℕ, ◌≤◌, ◌<◌, ◌≡◌, Option, none, some, List, [], ◌∷◌, length, lookup, arith, refl, Returns,
  Returns-bind, Bool-cases, inl, inr, Option-cases, false, true, Bool, ◌≢◌, ◌==◌, ltb, ==_iff, ◌⊎◌,
  contains,
}
use yyckv.Pb.{ConfChangeSingle, ConfChangeType, add_node, remove_node, update_node}
use yyckv.Quorum.IdSet.{IdSet, members, has, add, delete}
use yyckv.Tracker.{Config, ProgressMap, clone}
use yyckv.ConfChange.{
  Changer, Changed, changed, refused, simple, apply, apply_all, apply_one, apply_type, make_voter,
  remove, init_progress, joint, symdiff, check_symdiff, missing_from,
}

-- The incoming voters are there, and the outgoing ones are `out`.
abbrev Fits : IdSet → Config × ProgressMap → Type 0
Fits out r = (ids : List ℕ) × (r.0.voters.incoming ≡ some ids) × (r.0.voters.outgoing ≡ out)

abbrev FitsIf : IdSet → Option (Config × ProgressMap) → Type 0
FitsIf out none = Unit {0}
FitsIf out (some r) = Fits out r

make_voter-Fits :
    (c : Changer) (cfg : Config) (trk : ProgressMap) (id : ℕ) (out : IdSet)
    → Fits out (cfg, trk)
    → Returns (make_voter c cfg trk id) (Fits out)
unfolding make_voter init_progress add
make_voter-Fits c cfg trk id out (ids, e, o) = elim (Option-cases (lookup trk id)) [
  | inl none_yet ↦ rw (make_voter, none_yet, e) (_, refl, o)
  | inr (pr, known) ↦ rw (make_voter, known, e) (_, refl, o)
]

remove-Fits :
    (cfg : Config) (trk : ProgressMap) (id : ℕ) (out : IdSet)
    → Fits out (cfg, trk)
    → Fits out (remove cfg trk id)
unfolding remove delete
remove-Fits cfg trk id out (ids, e, o) = elim (Option-cases (lookup trk id)) [
  | inl none_yet ↦ rw (remove, none_yet) (ids, e, o)
  | inr (pr, known) ↦ rw (remove, known, e) (_, refl, o)
]

apply_type-Fits :
    (c : Changer) (r : Config × ProgressMap) (t : ConfChangeType) (id : ℕ) (out : IdSet)
    → Fits out r
    → Returns (apply_type c r t id) (FitsIf out)
unfolding apply_type
apply_type-Fits c (cfg, trk) add_node id out h =
    Returns-bind (make_voter c cfg trk id) _ (Fits out) (FitsIf out)
      (make_voter-Fits c cfg trk id out h) λ a k. k
apply_type-Fits c (cfg, trk) remove_node id out h = remove-Fits cfg trk id out h
apply_type-Fits c r update_node id out h = h
apply_type-Fits c r _ id out h = tt

apply_one-Fits :
    (c : Changer) (r : Config × ProgressMap) (cc : ConfChangeSingle) (out : IdSet)
    → Fits out r
    → Returns (apply_one c r cc) (FitsIf out)
unfolding apply_one
apply_one-Fits c r cc out h = ground (arith, apply_type-Fits c r cc.typ cc.node_id out h)

apply_all-Fits :
    (c : Changer) (r : Config × ProgressMap) (ccs : List ConfChangeSingle) (out : IdSet)
    → Fits out r
    → Returns (apply_all c r ccs) (FitsIf out)
unfolding apply_all
apply_all-Fits c r [] out h = h
apply_all-Fits c r (cc ∷ ccs) out h =
    Returns-bind (apply_one c r cc) _ (FitsIf out) (FitsIf out) (apply_one-Fits c r cc out h)
      (elim [ none ↦ λ k. tt | some r' ↦ λ k. apply_all-Fits c r' ccs out k ])

-- At most one node is in one of the two sets and not in the other.
abbrev pub DiffersOnce : IdSet → IdSet → Type 0
DiffersOnce s t = (a b : ℕ) → has s a ≢ has t a → has s b ≢ has t b → a ≡ b

missing_once :
    (xs : List ℕ) (s : IdSet) (a : ℕ)
    → contains xs a ≡ true
    → has s a ≡ false
    → 1 ≤ missing_from xs s
missing_once [] s a member out = absurd (ground (arith, member))
missing_once (x ∷ xs) s a member out = elim (Bool-cases (x == a)) [
  | inl this ↦ rw ((==_iff x a).0 this, out) (omega arith)
  | inr other ↦ omega (arith, missing_once xs s a (ground (arith, member, other)) out)
]

missing_twice :
    (xs : List ℕ) (s : IdSet) (a b : ℕ)
    → contains xs a ≡ true
    → contains xs b ≡ true
    → has s a ≡ false
    → has s b ≡ false
    → a ≢ b
    → 2 ≤ missing_from xs s
missing_twice [] s a b member _ out out' differ = absurd (ground (arith, member))
missing_twice (x ∷ xs) s a b member member' out out' differ = elim (Bool-cases (x == a)) [
  | inl this ↦
      let other : contains xs b ≡ true = ground (arith, member', (==_iff x a).0 this, differ) in
      rw ((==_iff x a).0 this, out) (omega (arith, missing_once xs s b other out'))
  | inr not_a ↦ elim (Bool-cases (x == b)) [
    | inl this ↦
        let rest : contains xs a ≡ true = ground (arith, member, not_a) in
        rw ((==_iff x b).0 this, out') (omega (arith, missing_once xs s a rest out))
    | inr not_b ↦ omega (
      arith,
      missing_twice xs s a b (ground (arith, member, not_a)) (ground (arith, member', not_b)) out
          out' differ,
    )
  ]
]

-- A test that differs is true on one side.
differs_cases : (x y : Bool) → x ≢ y → (x ≡ true) × (y ≡ false) ⊎ (x ≡ false) × (y ≡ true)
differs_cases x y h = ground arith

symdiff-DiffersOnce : (s t : IdSet) → symdiff s t ≤ 1 → DiffersOnce s t
unfolding symdiff
symdiff-DiffersOnce s t few a b p q = elim (Bool-cases (a == b)) [
  | inl same ↦ (==_iff a b).0 same
  | inr apart ↦
      let differ : a ≢ b = λ e. absurd (ground (arith, (==_iff a b).1 e, apart)) in
      absurd (elim (differs_cases _ _ p) [
        | inl (in_a, out_a) ↦ elim (differs_cases _ _ q) [
          | inl (in_b, out_b) ↦
              omega (arith, few, missing_twice (members s) t a b in_a in_b out_a out_b differ)
          | inr (out_b, in_b) ↦ omega (
            arith,
            few,
            missing_once (members s) t a in_a out_a,
            missing_once (members t) s b in_b out_b,
          )
        ]
        | inr (out_a, in_a) ↦ elim (differs_cases _ _ q) [
          | inl (in_b, out_b) ↦ omega (
            arith,
            few,
            missing_once (members s) t b in_b out_b,
            missing_once (members t) s a in_a out_a,
          )
          | inr (out_b, in_b) ↦
              omega (arith, few, missing_twice (members t) s a b in_a in_b out_a out_b differ)
        ]
      ])
]

-- What `Simple` returns for the changer `c`: outside a joint configuration, a configuration that
-- still has a voter, differs in at most one voter and is not joint, or an error.
abbrev pub IsSimple : Changer → Changed → Type 0
IsSimple c (refused e) = Unit {0}
IsSimple c (changed cfg trk) =
    (joint c.tracker.config ≡ false)
    × (0 < length (members cfg.voters.incoming))
    × DiffersOnce c.tracker.config.voters.incoming cfg.voters.incoming
    × (cfg.voters.outgoing ≡ c.tracker.config.voters.outgoing)

abbrev HasVoter : IdSet → Changed → Type 0
HasVoter out (refused e) = Unit {0}
HasVoter out (changed cfg trk) =
    (0 < length (members cfg.voters.incoming)) × (cfg.voters.outgoing ≡ out)

apply-Fits :
    (c : Changer) (cfg : Config) (trk : ProgressMap) (ccs : List ConfChangeSingle) (out : IdSet)
    → Fits out (cfg, trk)
    → Returns (apply c cfg trk ccs) (HasVoter out)
unfolding apply
apply-Fits c cfg trk ccs out h =
    Returns-bind (apply_all c (cfg, trk) ccs) _ (FitsIf out) _
      (apply_all-Fits c (cfg, trk) ccs out h)
      (elim [ none ↦ λ k. tt | some r ↦ λ k. ground (arith, k) ])

check_symdiff-IsSimple :
    (c : Changer) (cfg : Config) (trk : ProgressMap)
    → joint c.tracker.config ≡ false
    → HasVoter c.tracker.config.voters.outgoing (changed cfg trk)
    → IsSimple c (check_symdiff c.tracker.config.voters.incoming (changed cfg trk))
unfolding check_symdiff
check_symdiff-IsSimple c cfg trk not_joint (some_voter, same) =
    let old = c.tracker.config.voters.incoming in
    elim (Bool-cases (ltb 1 (symdiff old cfg.voters.incoming))) [
      | inl many ↦ rw many tt
      | inr few ↦ rw few (
        not_joint,
        some_voter,
        symdiff-DiffersOnce old cfg.voters.incoming (ground (arith, few)),
        same,
      )
    ]

-- With a map of incoming voters, `Simple` does not panic. It returns an error, or, if the configuration was
-- not joint, one that still has an incoming voter, whose incoming voters differ from the old ones in at
-- most one node, and whose outgoing voters are the old ones.
pub simple-IsSimple :
    (c : Changer) (ccs : List ConfChangeSingle) (ids : List ℕ)
    → c.tracker.config.voters.incoming ≡ some ids
    → Returns (simple c ccs) (IsSimple c)
unfolding simple clone
simple-IsSimple c ccs ids some_voters =
    let cfg = clone c.tracker.config in
    elim (Bool-cases (joint c.tracker.config)) [
      | inl is_joint ↦ rw is_joint tt
      | inr not_joint ↦ rw not_joint (
          Returns-bind (apply c cfg c.tracker.progress ccs) _ (HasVoter cfg.voters.outgoing)
            (IsSimple c)
            (apply-Fits c cfg c.tracker.progress ccs cfg.voters.outgoing (ids, some_voters, refl))
            (elim [
              | refused e ↦ λ k. tt
              | changed cfg' trk' ↦ λ k. check_symdiff-IsSimple c cfg' trk' not_joint k
            ]))
    ]
