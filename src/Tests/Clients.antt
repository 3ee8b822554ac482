-- ===== src/Tests/Clients.antt =====
-- The theorems on what clients and members do at concrete inputs.
use yyckv.Base.{
  Text, codes, ℕ, suc, ◌≤◌, ◌≡◌, ◌≢◌, refl, Bool, true, Option, none, some, List, [], ◌∷◌, map,
  length, get_elem?, All, arith, Returns,
}
use yyckv.Base.Words.{trim_space}
use mathlib.Core.List.{Perm}
use yyckv.Node.Callers.{Turn, taken, stepped}
use yyckv.Kv.Proposals.{Input, proposed_data, data_closed, stuck, serve_inputs}
use yyckv.Kv.Proposals.Stuck.{serve_inputs-stuck}
use yyckv.Models.{Url, new_urls}
use yyckv.Models.Valid.{IsSorted, IsAccepted, new_urls_lem}
use yyckv.Http.{new_url_picker, pick_url}
use yyckv.Http.Body.{Read, limited_read, read_all, read_all_lem}
use yyckv.Http.Transport.{get, start_peer}
use yyckv.Kv.Start.{start_transport}
use yyckv.Kv.Start.Peers.{start_transport-get}

abbrev inputs : List (Input × List Turn)
inputs = (proposed_data (codes "b"), taken ∷ []) ∷ (data_closed, []) ∷ []

serve_inputs-stuck_example :
    Returns
      (serve_inputs 0 ((proposed_data (codes "a"), taken ∷ stepped none ∷ []) ∷ inputs))
      λ s. (s.1 ≡ stuck) × (length s.0 ≤ 1)
serve_inputs-stuck_example =
    serve_inputs-stuck 0 (codes "a") (taken ∷ stepped none ∷ []) inputs (tt, (tt, tt))

-- A parser that takes the text for the host.
abbrev parse : Text → Option Url
parse s = some (record { scheme = codes "http"; host = s; path = [] })

abbrev host : Url → Text
host u = u.host

abbrev accepts : Text → Bool
accepts s = true

abbrev url : Text → Url
url s = record { scheme = codes "http"; host = s; path = [] }

abbrev sorted : List Url
sorted = url (codes "a:1") ∷ url (codes "b:2") ∷ []

new_urls_lem_example :
    ((vs : List Url) × (map (λ s. parse (trim_space s)) (codes " b:2" ∷ codes "a:1" ∷ [])
        ≡ map some vs)
      × Perm sorted vs)
    × IsSorted host sorted
    × All (IsAccepted accepts) sorted
    × Returns (pick_url (new_url_picker sorted)) (IsAccepted accepts)
unfolding new_urls trim_space
new_urls_lem_example = new_urls_lem parse accepts host (codes " b:2" ∷ codes "a:1" ∷ []) sorted refl

abbrev reads : List Read
reads =
    (record { asked = 512; given = 1 })
    ∷ (record { asked = 3; given = 9 })
    ∷ (record { asked = 3; given = 9 })
    ∷ []

read_all_lem_example :
    (read_all 1 reads (7 ∷ 8 ∷ 9 ∷ []) ≡ some (7 ∷ 8 ∷ 9 ∷ []))
    × ((r : Read) (s : Text) → length (limited_read 1 r s) ≤ 1)
read_all_lem_example =
    read_all_lem 1 reads (7 ∷ 8 ∷ 9 ∷ []) (omega arith)
      ((omega arith, omega arith), ((omega arith, omega arith), ((omega arith, omega arith), tt)))
      (omega arith)

abbrev accept_all : List Text → Option (List Text)
accept_all us = some us

start_transport-get_example :
    Returns
      (start_transport accept_all 2 (codes "http://a:1" ∷ codes "http://b:2" ∷ []) true true)
      λ t.
        (get t 2 ≡ none)
        × ((k : ℕ) (s : Text) (us : List Text)
            → get_elem? (codes "http://a:1" ∷ codes "http://b:2" ∷ []) k ≡ some s
            → suc k ≢ 2
            → accept_all (s ∷ []) ≡ some us
            → get t (suc k) ≡ some (new_url_picker us, start_peer (suc k)))
start_transport-get_example =
    start_transport-get accept_all 2 (codes "http://a:1" ∷ codes "http://b:2" ∷ []) (omega arith)
      ((λ e. ground (arith, e)), ((λ e. ground (arith, e)), tt))
