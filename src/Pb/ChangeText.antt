-- ===== src/Pb/ChangeText.antt =====
-- raft/raftpb/confchange.go: the text of configuration changes. An error is the message that goes with it,
-- or the one of strconv.
use yyckv.Base.{
  Text, codes, ℕ, Bool, true, false, Option, none, some, List, [], ◌∷◌, ◌++◌, ◌==◌, ◌⊎◌, inl, inr,
  if◌then◌else◌,
}
use yyckv.Base.Numerals.{decimal, format_uint, parse_uint}
use yyckv.Base.Words.{trim_space, split}
use yyckv.Pb.Change.{
  ConfChangeType, add_node, remove_node, update_node, add_learner_node, other_type,
  ConfChangeSingle,
}
pub mod RoundTrip

pub data ParseError : Type 0 where
  unknown_token unknown_input : Text → ParseError
  bad_number : ParseError

-- The `switch tok[0]`.
unfoldable pub change_type : ℕ → Option ConfChangeType
change_type c =
    if c == b'v'
    then some add_node
    else if c == b'l'
    then some add_learner_node
    else if c == b'r'
    then some remove_node
    else if c == b'u'
    then some update_node
    else none

unfoldable pub parse_token : Text → ParseError ⊎ ConfChangeSingle
unfolding change_type
parse_token [] = inl (unknown_token [])
parse_token (c ∷ []) = inl (unknown_token (c ∷ []))
parse_token (c ∷ d ∷ s) = elim (change_type c) [
  | none ↦ inl (unknown_input (c ∷ d ∷ s))
  | some t ↦ elim (parse_uint decimal (d ∷ s)) [
    | none ↦ inl bad_number
    | some id ↦ inr (record { typ = t; node_id = id })
  ]
]

-- The loop over the tokens, with the changes that are read.
unfoldable pub parse_tokens : List Text → List ConfChangeSingle → ParseError ⊎ List ConfChangeSingle
unfolding parse_token
parse_tokens [] ccs = inr ccs
parse_tokens (tok ∷ toks) ccs = elim (parse_token tok) [
  | inl e ↦ inl e
  | inr cc ↦ parse_tokens toks (ccs ++ (cc ∷ []))
]

-- An empty first token stands for no tokens.
unfoldable pub read_tokens : Text × List Text → ParseError ⊎ List ConfChangeSingle
unfolding parse_tokens
read_tokens ([], toks) = inr []
read_tokens (c ∷ cs, toks) = parse_tokens ((c ∷ cs) ∷ toks) []

unfoldable pub conf_changes_from_string : Text → ParseError ⊎ List ConfChangeSingle
unfolding read_tokens
conf_changes_from_string s = read_tokens (split 32 (trim_space s))

abbrev pub type_text : ConfChangeType → Text
type_text add_node = b'v' ∷ []
type_text add_learner_node = b'l' ∷ []
type_text remove_node = b'r' ∷ []
type_text update_node = b'u' ∷ []
type_text (other_type k) = codes "unknown"

abbrev pub print_change : ConfChangeSingle → Text
print_change cc = type_text cc.typ ++ format_uint decimal cc.node_id

-- The loop over the changes, from the second one on.
unfoldable pub print_more : List ConfChangeSingle → Text
print_more [] = []
print_more (cc ∷ ccs) = 32 ∷ (print_change cc ++ print_more ccs)

unfoldable pub conf_changes_to_string : List ConfChangeSingle → Text
unfolding print_more
conf_changes_to_string [] = []
conf_changes_to_string (cc ∷ ccs) = print_change cc ++ print_more ccs
