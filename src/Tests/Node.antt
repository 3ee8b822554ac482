-- ===== src/Tests/Node.antt =====
-- The theorems on a node at concrete inputs.
use yyckv.Base.{ℕ, ◌≡◌, ◌⊎◌, ◌↔◌, refl, false, some, [], ◌∷◌, Returns, Yields, arith}
use yyckv.Log.View.{term_at, end_of}
use yyckv.Log.Ranges.{
  next_committed_ents, next_unstable_ents, max_appliable_index, must_check_out_of_bounds,
}
use yyckv.Unstable.{next_entries, maybe_first_index, maybe_last_index}
use yyckv.Unstable
use yyckv.Base.Word.{add64, sub64}
use yyckv.Log.Ranges
use yyckv.Log.{first_index, last_index}
use yyckv.Storage.Memory
use yyckv.Util.{limit_size}
use yyckv.Raft.Setup.{Config, validate, pos}
use yyckv.Raft.Setup.Valid.{IsRunnable, defaulted, validate_lem}
use yyckv.Raft.Step.{step, on_vote_request}
use yyckv.Raft.Step.Roles.{Follows}
use yyckv.Raft.Step.Vote.{step-Follows}
use yyckv.Raft.Step.Grant.{CanVote, IsCurrent, Grants, Refuses, on_vote_request_lem}
use yyckv.RawNode.{ready, apply_unstable_entries}
use yyckv.RawNode.Delivery.{Delivers, ready-Delivers}
use yyckv.Storage.Memory.{as_storage, new_memory_storage}
use yyckv.Tests.Data.{memory, stable, log, log-IsValid, node, request, raw, entry}

step-Follows_example : Yields (step node (request 3)) λ s. Follows node s.0
step-Follows_example =
    step-Follows node (request 3) (omega arith) (omega arith) λ e. absurd (ground arith)

on_vote_request_lem_example :
    (ours : ℕ) × (term_at stable log (end_of stable log) ≡ some ours)
    × Returns (on_vote_request node (request 2)) λ r'.
      (CanVote node (request 2)
        × IsCurrent ours (end_of stable log) (request 2)
        × Grants node (request 2) r')
      ⊎ (¬ (CanVote node (request 2) × IsCurrent ours (end_of stable log) (request 2)))
        × Refuses node (request 2) r'
on_vote_request_lem_example =
    on_vote_request_lem stable node log-IsValid (request 2) refl (omega arith) (omega arith)

abbrev config : Config
config = record {
  id = 1;
  election_tick = pos 10;
  heartbeat_tick = pos 1;
  storage = some (as_storage memory);
  async_storage_writes = false;
  max_size_per_msg = 1048576;
  max_committed_size_per_ready = 0;
  max_uncommitted_entries_size = 1073741824;
  max_inflight_msgs = pos 256;
  max_inflight_bytes = 0;
  check_quorum = false;
  pre_vote = false;
}

validate_lem_example :
    (validate config ≡ some (defaulted config))
    ↔ (IsRunnable config × (defaulted config ≡ defaulted config))
validate_lem_example = validate_lem config (defaulted config)

ready-Delivers_example : Returns (ready raw) λ r.
    Delivers raw r.0 r.1
    × (r.1.entries ≡ entry 1 1 ∷ entry 2 1 ∷ [])
    × (r.1.committed_entries ≡ entry 1 1 ∷ [])
unfolding next_unstable_ents next_committed_ents next_entries sub64 add64 apply_unstable_entries
    max_appliable_index Ranges.slice Unstable.slice must_check_out_of_bounds first_index last_index
    maybe_first_index maybe_last_index as_storage Memory.first_index Memory.last_index
    new_memory_storage limit_size
ready-Delivers_example =
    ready-Delivers raw (entry 1 1 ∷ entry 2 1 ∷ []) (entry 1 1 ∷ []) refl refl refl refl
