-- ===== src/Tests/Store.antt =====
-- The theorems on the key-value store at concrete inputs.
use yyckv.Base.{
  Text, ℕ, ◌≤◌, ◌≡◌, refl, true, false, none, some, Option, List, [], ◌∷◌, ◌++◌, ok, arith, inr,
  take, subst, Yields,
}
use mathlib.Core.Option.{some-injective}
use yyckv.Base.Word.{add64, sub64}
use yyckv.Pb.{Entry, entry_normal, ConfChange, update_node, message, msg_app}
use yyckv.Kv.{
  RaftNode, serve_channels, serve_committed, entries_to_apply, publish_entries, publish_all,
  publish_entry,
}
use yyckv.Kv.Publish.{contents}
use yyckv.Kv.Replay.{serve_channels-replays}
use yyckv.Kv.Serve.{IsPlain, batches_of, reached, serve_channels-reached}
use yyckv.HttpApi.{get, handle_data_request}
use yyckv.HttpApi.Data.{handle_data_request-apply_commit}
use yyckv.Kv.Agree.{replicas_agree}
use yyckv.Kv.Store.{KvData, read_commits, apply_commit, put}
use yyckv.Kv.Ready.{App, serve_ready}
use yyckv.Kv.Ready.Effects.{Serves, serve_ready-Serves}
use yyckv.RawNode.{Ready}
use yyckv.Http.Transport.{start_peer}
use yyckv.Tests.Data.{node, memory, memory-IsValid}

-- The text of an entry is its key and its value, of one character each.
abbrev entry : ℕ → Text → Entry
entry i t = record { term = 1; index = i; typ = entry_normal; payload = some t }

abbrev log : List Entry
log = entry 1 (7 ∷ 5 ∷ []) ∷ entry 2 [] ∷ entry 3 (7 ∷ 6 ∷ []) ∷ []

abbrev unmarshal : Option Text → ConfChange
unmarshal p = record { typ = update_node; node_id = 0; context = none; id = 0 }

abbrev encode : Text × Text → Option Text
encode (key, val) = elim key [ [] ↦ none | k ∷ ks ↦ elim ks [ [] ↦ some (k ∷ val) | _ ∷ _ ↦ none ] ]

abbrev decode : Text → Option (Text × Text)
decode [] = none
decode (k ∷ val) = some (k ∷ [], val)

abbrev kv_node : RaftNode
kv_node = record {
  id = 1;
  conf_state = record {
    voters = 1 ∷ [];
    learners = [];
    voters_outgoing = [];
    learners_next = [];
    auto_leave = false;
  };
  applied_index = 0;
  raft = node;
  calls = [];
}

abbrev applied : RaftNode
applied = record kv_node { applied_index = 3 }

-- The first two entries, and all of them; and all of them at once.
serves :
    (serve_channels unmarshal kv_node ((true, take 2 log) ∷ (true, log) ∷ [])
      ≡ ok (applied, (7 ∷ 5 ∷ []) ∷ (7 ∷ 6 ∷ []) ∷ [], true))
    × (serve_channels unmarshal kv_node ((true, log) ∷ [])
        ≡ ok (applied, (7 ∷ 5 ∷ []) ∷ (7 ∷ 6 ∷ []) ∷ [], true))
unfolding serve_channels serve_committed entries_to_apply publish_entries publish_all publish_entry
    add64 sub64
serves = (refl, refl)

serve_channels-replays_example :
    (0 ≤ 3)
    × (3 ≤ 3)
    × (contents (take 0 log) ++ ((7 ∷ 5 ∷ []) ∷ (7 ∷ 6 ∷ []) ∷ []) ≡ contents (take 3 log))
serve_channels-replays_example =
    serve_channels-replays unmarshal log kv_node applied ((true, take 2 log) ∷ (true, log) ∷ [])
      ((7 ∷ 5 ∷ []) ∷ (7 ∷ 6 ∷ []) ∷ []) (refl, (refl, (refl, tt))) (omega arith) (omega arith)
      (inr (0, 2, omega arith, omega arith, refl), (inr (0, 3, omega arith, omega arith, refl), tt))
      serves.0

plain : IsPlain log
plain = (λ e. ground (arith, e), (λ e. ground (arith, e), (λ e. ground (arith, e), tt)))

serve_channels-reached_example :
    (published : List Text) × (serve_channels unmarshal kv_node
        (batches_of log ((0, 2) ∷ (0, 3) ∷ []))
      ≡ ok (record kv_node { applied_index = reached 0 ((0, 2) ∷ (0, 3) ∷ []) }, published, true))
serve_channels-reached_example =
    serve_channels-reached unmarshal log kv_node ((0, 2) ∷ (0, 3) ∷ []) (refl, (refl, (refl, tt)))
      (omega arith) plain (omega arith) (omega arith, omega arith, (omega arith, omega arith, tt))

abbrev no_data : KvData
no_data k = none

replicas_agree_example :
    read_commits decode no_data (some ((7 ∷ 5 ∷ []) ∷ []) ∷ some ((7 ∷ 6 ∷ []) ∷ []) ∷ [])
    ≡ read_commits decode no_data (some ((7 ∷ 5 ∷ []) ∷ (7 ∷ 6 ∷ []) ∷ []) ∷ [])
replicas_agree_example =
    replicas_agree unmarshal decode log kv_node kv_node applied applied
      ((true, take 2 log) ∷ (true, log) ∷ []) ((true, log) ∷ [])
      (some ((7 ∷ 5 ∷ []) ∷ []) ∷ some ((7 ∷ 6 ∷ []) ∷ []) ∷ [])
      (some ((7 ∷ 5 ∷ []) ∷ (7 ∷ 6 ∷ []) ∷ []) ∷ []) no_data (refl, (refl, (refl, tt)))
      (omega arith) refl refl
      (inr (0, 2, omega arith, omega arith, refl), (inr (0, 3, omega arith, omega arith, refl), tt))
      (inr (0, 3, omega arith, omega arith, refl), tt) serves.0 serves.1 refl

gob : (kv : Text × Text) (u : Text) → encode kv ≡ some u → decode u ≡ some kv
gob ([], val) u e = absurd (ground (arith, e))
gob (k ∷ [], val) u e = subst (λ v. decode v ≡ some (k ∷ [], val)) (some-injective _ _ e) refl
gob (k ∷ l ∷ ks, val) u e = absurd (ground (arith, e))

abbrev before : KvData
before k = none

abbrev applied_data : KvData
applied_data = put (put before (7 ∷ []) (4 ∷ [])) (7 ∷ []) (6 ∷ [])

handle_data_request-apply_commit_example :
    handle_data_request encode applied_data get (7 ∷ []) none
    ≡ ok (record { status = 200; body = 6 ∷ [] }, [])
unfolding apply_commit handle_data_request
handle_data_request-apply_commit_example =
    handle_data_request-apply_commit encode decode (7 ∷ []) (6 ∷ []) (7 ∷ 6 ∷ []) before before
      applied_data none (record { status = 204; body = [] }) ((7 ∷ 4 ∷ []) ∷ []) gob refl refl

-- A node with a peer 2, that is given an entry to store, a message to the peer, and two committed entries.
abbrev app : App ℕ
app = record {
  node = kv_node;
  storage = memory;
  transport = record {
    has_logger = true;
    remotes = some [];
    peers = some ((2, ((record { urls = 10 ∷ []; picked = 0 }), start_peer 2)) ∷ []);
  };
}

abbrev offered : Ready
offered = record {
  entries = entry 3 (7 ∷ 6 ∷ []) ∷ [];
  committed_entries = take 2 log;
  messages = message msg_app 2 ∷ [];
}

abbrev no_urls : List Text → Option (List ℕ)
no_urls us = none

serve_ready-Serves_example :
    Yields
      (serve_ready no_urls unmarshal app true offered)
      (Serves no_urls unmarshal 0 3 log app offered)
serve_ready-Serves_example =
    serve_ready-Serves no_urls unmarshal log app true offered 0 3 memory-IsValid (omega arith)
      (omega arith) (omega arith) (refl, tt) (refl, (refl, (refl, tt))) (omega arith) (omega arith)
      (inr (0, 2, omega arith, omega arith, refl))
