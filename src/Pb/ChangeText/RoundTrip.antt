-- ===== src/Pb/ChangeText/RoundTrip.antt =====
-- raft/raftpb/confchange.go: what `ConfChangesToString` prints, `ConfChangesFromString` reads.
use mathlib.Core.List.{append_assoc, append-nil, reverse, reverse-append}
use yyckv.Base.{
  Text, ℕ, ◌≡◌, ◌≢◌, ◌<◌, refl, ap, sym, subst, ◌∙◌, List, [], ◌∷◌, ◌++◌, All, inr, arith, some,
}
use yyckv.Base.Word.{modulus}
use yyckv.Base.Numerals.{decimal, format_uint, parse_uint}
use yyckv.Base.Numerals.RoundTrip.{IsPlain, format_uint-IsNumeral, parse_uint-format_uint}
use yyckv.Base.Words.{trim_space, trim_front, split}
use yyckv.Base.Words.Split.{trim_space-plain, Lacks, split-word, split-joined}
use yyckv.Pb.Change.{
  ConfChangeType, add_node, remove_node, update_node, add_learner_node, other_type,
  ConfChangeSingle,
}
use yyckv.Pb.ChangeText.{
  change_type, parse_token, parse_tokens, read_tokens, conf_changes_from_string, type_text,
  print_change, print_more, conf_changes_to_string,
}

-- A type that one of the constants names.
abbrev pub IsKnown : ConfChangeType → Type 0
IsKnown (other_type k) = ⊥
IsKnown _ = Unit

-- The byte for a known type.
abbrev type_byte : ConfChangeType → ℕ
type_byte add_node = b'v'
type_byte add_learner_node = b'l'
type_byte remove_node = b'r'
type_byte update_node = b'u'
type_byte (other_type k) = 0

type_text_known : (t : ConfChangeType) → IsKnown t → type_text t ≡ type_byte t ∷ []
type_text_known add_node known = refl
type_text_known add_learner_node known = refl
type_text_known remove_node known = refl
type_text_known update_node known = refl
type_text_known (other_type k) known = absurd known

change_type-type_byte : (t : ConfChangeType) → IsKnown t → change_type (type_byte t) ≡ some t
unfolding change_type
change_type-type_byte add_node known = refl
change_type-type_byte add_learner_node known = refl
change_type-type_byte remove_node known = refl
change_type-type_byte update_node known = refl
change_type-type_byte (other_type k) known = absurd known

type_byte-plain : (t : ConfChangeType) → IsKnown t → (32 < type_byte t) × (type_byte t < 128)
type_byte-plain add_node known = (omega arith, omega arith)
type_byte-plain add_learner_node known = (omega arith, omega arith)
type_byte-plain remove_node known = (omega arith, omega arith)
type_byte-plain update_node known = (omega arith, omega arith)
type_byte-plain (other_type k) known = absurd known

print_change_known :
    (cc : ConfChangeSingle)
    → IsKnown cc.typ
    → print_change cc ≡ type_byte cc.typ ∷ format_uint decimal cc.node_id
print_change_known cc known =
    ap (λ t. t ++ format_uint decimal cc.node_id) (type_text_known cc.typ known)

print_change-IsPlain : (cc : ConfChangeSingle) → IsKnown cc.typ → IsPlain (print_change cc)
print_change-IsPlain cc known =
    subst IsPlain (sym (print_change_known cc known))
      (type_byte-plain cc.typ known, (format_uint-IsNumeral decimal cc.node_id).0)

IsPlain-Lacks : (t : Text) → IsPlain t → Lacks 32 t
IsPlain-Lacks [] h = tt
IsPlain-Lacks (c ∷ t) h = ((λ e. absurd (omega (arith, e, h.0.0))), IsPlain-Lacks t h.1)

token_numeral :
    (c : ℕ) (t : ConfChangeType) (id : ℕ) (s : Text)
    → change_type c ≡ some t
    → s ≢ []
    → parse_uint decimal s ≡ some id
    → parse_token (c ∷ s) ≡ inr (record { typ = t; node_id = id })
unfolding parse_token
token_numeral c t id [] read some_digit number = absurd (some_digit refl)
token_numeral c t id (d ∷ s) read some_digit number = rw (parse_token, read, number) refl

-- The type is known, and the node identity is a `uint64`.
abbrev pub IsReadable : ConfChangeSingle → Type 0
IsReadable cc = IsKnown cc.typ × (cc.node_id < modulus)

parse_token-print_change :
    (cc : ConfChangeSingle) → IsReadable cc → parse_token (print_change cc) ≡ inr cc
parse_token-print_change cc (known, fits) =
    ap parse_token (print_change_known cc known)
    ∙ token_numeral (type_byte cc.typ) cc.typ cc.node_id (format_uint decimal cc.node_id)
        (change_type-type_byte cc.typ known) (format_uint-IsNumeral decimal cc.node_id).1
        (parse_uint-format_uint decimal cc.node_id fits)

abbrev prints : List ConfChangeSingle → List Text
prints [] = []
prints (cc ∷ ccs) = print_change cc ∷ prints ccs

split-print_more :
    (w : Text) (ccs : List ConfChangeSingle)
    → Lacks 32 w
    → All IsReadable ccs
    → split 32 (w ++ print_more ccs) ≡ (w, prints ccs)
unfolding print_more
split-print_more w [] h read = ap (split 32) (append-nil w) ∙ split-word 32 w h
split-print_more w (cc ∷ ccs) h read =
    split-joined 32 w (print_change cc ++ print_more ccs) h
    ∙ ap (λ p. (w, p.0 ∷ p.1))
        (split-print_more (print_change cc) ccs
          (IsPlain-Lacks (print_change cc) (print_change-IsPlain cc read.0.0)) read.1)

parse_tokens-prints :
    (ccs read : List ConfChangeSingle)
    → All IsReadable ccs
    → parse_tokens (prints ccs) read ≡ inr (read ++ ccs)
unfolding parse_tokens
parse_tokens-prints [] read h = ap inr (sym (append-nil read))
parse_tokens-prints (cc ∷ ccs) read h =
    rw (parse_tokens, parse_token-print_change cc h.0)
      (parse_tokens-prints ccs (read ++ (cc ∷ [])) h.1 ∙ ap inr (append_assoc read (cc ∷ []) ccs))

-- The last byte that is printed.
abbrev EndsPlain : Text → Type 0
EndsPlain t = (d : ℕ) × (s : Text) × (reverse t ≡ d ∷ s) × (32 < d) × (d < 128)

EndsPlain-append : (u t : Text) → EndsPlain t → EndsPlain (u ++ t)
EndsPlain-append u t (d, s, e, lo, hi) =
    (d, s ++ reverse u, reverse-append u t ∙ ap (λ x. x ++ reverse u) e, lo, hi)

IsPlain-EndsPlain : (c : ℕ) (t : Text) → IsPlain (c ∷ t) → EndsPlain (c ∷ t)
IsPlain-EndsPlain c [] h = (c, [], refl, h.0.0, h.0.1)
IsPlain-EndsPlain c (d ∷ t) h = EndsPlain-append (c ∷ []) (d ∷ t) (IsPlain-EndsPlain d t h.1)

print_more-EndsPlain :
    (cc : ConfChangeSingle) (ccs : List ConfChangeSingle)
    → All IsReadable (cc ∷ ccs)
    → EndsPlain (print_change cc ++ print_more ccs)
unfolding print_more
print_more-EndsPlain cc [] h =
    subst EndsPlain (sym (append-nil (print_change cc) ∙ print_change_known cc h.0.0)) (
      IsPlain-EndsPlain (type_byte cc.typ) (format_uint decimal cc.node_id)
        (subst IsPlain (print_change_known cc h.0.0) (print_change-IsPlain cc h.0.0)))
print_more-EndsPlain cc (cc' ∷ ccs) h =
    EndsPlain-append (print_change cc) (32 ∷ (print_change cc' ++ print_more ccs)) (
      EndsPlain-append (32 ∷ []) (print_change cc' ++ print_more ccs)
        (print_more-EndsPlain cc' ccs h.1))

-- No blanks are cut off a text of changes.
trimmed :
    (cc : ConfChangeSingle) (ccs : List ConfChangeSingle)
    → All IsReadable (cc ∷ ccs)
    → trim_space (print_change cc ++ print_more ccs) ≡ print_change cc ++ print_more ccs
trimmed cc ccs h =
    let (d, s, e, lo, hi) = print_more-EndsPlain cc ccs h in
    let same = print_change_known cc h.0.0 in
    subst (λ t. trim_space (t ++ print_more ccs) ≡ t ++ print_more ccs) (sym same)
      (trim_space-plain (type_byte cc.typ) d (format_uint decimal cc.node_id ++ print_more ccs) s
        (type_byte-plain cc.typ h.0.0) (lo, hi)
        (subst (λ t. reverse (t ++ print_more ccs) ≡ d ∷ s) same e))

-- Changes of known types, whose node identities are `uint64`s, are read back from their text, in order.
pub conf_changes_from_string-conf_changes_to_string :
    (ccs : List ConfChangeSingle)
    → All IsReadable ccs
    → conf_changes_from_string (conf_changes_to_string ccs) ≡ inr ccs
unfolding conf_changes_from_string conf_changes_to_string read_tokens trim_space trim_front split
conf_changes_from_string-conf_changes_to_string [] h = refl
conf_changes_from_string-conf_changes_to_string (cc ∷ ccs) h =
    let lacks = IsPlain-Lacks (print_change cc) (print_change-IsPlain cc h.0.0) in
    let words = split-print_more (print_change cc) ccs lacks h.1 in
    ap (λ t. read_tokens (split 32 t)) (trimmed cc ccs h)
    ∙ ap read_tokens (words ∙ ap (λ t. (t, prints ccs)) (print_change_known cc h.0.0))
    ∙ ap (λ t. parse_tokens (t ∷ prints ccs) []) (sym (print_change_known cc h.0.0))
    ∙ parse_tokens-prints (cc ∷ ccs) [] h
