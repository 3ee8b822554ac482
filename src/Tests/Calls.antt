-- ===== src/Tests/Calls.antt =====
-- The theorems on the calls of a node and on the text of changes at concrete inputs.
use yyckv.Base.{◌≡◌, none, some, List, [], ◌∷◌, All, inr, arith}
use yyckv.Pb.{add_node, add_learner_node, remove_node, ConfChangeSingle}
use yyckv.Pb.ChangeText.{conf_changes_from_string, conf_changes_to_string}
use yyckv.Pb.ChangeText.RoundTrip.{conf_changes_from_string-conf_changes_to_string}
use yyckv.Node.Callers.{Turn, taken, stepped, propose}
use yyckv.Node.Callers.Answers.{IsOpen, IsCut, propose_lem}

-- The loop takes the proposal and serves it.
abbrev turns : List Turn
turns = taken ∷ stepped none ∷ []

propose_lem_example :
    IsCut (propose 1 (some (7 ∷ [])) turns).returned
    × (All IsOpen turns → (propose 1 (some (7 ∷ [])) turns).returned ≡ none)
propose_lem_example = propose_lem 1 (some (7 ∷ [])) turns

abbrev changes : List ConfChangeSingle
changes =
    (record { typ = add_node; node_id = 12 })
    ∷ (record { typ = add_learner_node; node_id = 0 })
    ∷ (record { typ = remove_node; node_id = 305 })
    ∷ []

conf_changes_from_string-conf_changes_to_string_example :
    conf_changes_from_string (conf_changes_to_string changes) ≡ inr changes
conf_changes_from_string-conf_changes_to_string_example =
    conf_changes_from_string-conf_changes_to_string changes
      ((tt, omega arith), ((tt, omega arith), ((tt, omega arith), tt)))
