-- ===== src/Raft/Become.antt =====
-- raft/core/raft.go: the changes of role, `reset` and `appendEntry`.
use yyckv.Base.{
  ℕ, suc, ◌+◌, true, false, none, List, [], ◌∷◌, lookup, insert, ◌==◌, if◌then◌else◌, Fallible, ok,
  panic, raised, deref, ◌>>=◌,
}
use yyckv.Base.Word.{add64}
use yyckv.Pb.{Entry, message, msg_app_resp, entry_normal}
use yyckv.Log
use yyckv.Tracker.{ProgressMap, reset_votes}
use yyckv.Tracker.Progress.{Progress, state_probe, become_replicate}
use yyckv.Raft.{
  Raft, state_follower, state_candidate, state_leader, state_pre_candidate, tick_election,
  tick_heartbeat, step_follower, step_candidate, step_leader, is_leader, is_follower,
}
use yyckv.Raft.Send.{send}

-- `globalRand.Intn`, which panics on an empty range.
unfoldable pub reset_randomized_election_timeout : Raft → Fallible Raft
reset_randomized_election_timeout r =
    if r.election_timeout == 0
    then panic raised
    else ok (record r {
      randomized_election_timeout =
          r.election_timeout + r.random.draw r.random.drawn r.election_timeout;
      random = record { draw = r.random.draw; drawn = suc r.random.drawn };
    })

abbrev fresh_progress : ℕ → ℕ → Progress → Progress
fresh_progress match_index last pr = record {
  match_index = match_index;
  next = add64 last 1;
  state = state_probe;
  pending_snapshot = 0;
  recent_active = false;
  msg_app_flow_paused = false;
  is_learner = pr.is_learner;
}

-- The closure of `reset`, for every progress.
unfoldable pub reset_progress : Raft → ProgressMap → Fallible ProgressMap
reset_progress r [] = ok []
reset_progress r ((id, pr) ∷ m) = do
  last ← Log.last_index r.raft_log
  rest ← reset_progress r m
  ok ((id, fresh_progress (if id == r.id then last else 0) last pr) ∷ rest)

abbrev pub enter_term : Raft → ℕ → Raft
enter_term r term = if r.term == term then r else record r { term = term; vote = 0 }

unfoldable pub reset : Raft → ℕ → Fallible Raft
reset r term = do
  r₁ ←
      reset_randomized_election_timeout
        (record (enter_term r term) { lead = 0; election_elapsed = 0; heartbeat_elapsed = 0 })
  let trk = reset_votes r₁.trk
  progress ← reset_progress r₁ trk.progress
  ok (record r₁ { trk = record trk { progress = progress }; pending_conf_index = 0 })

unfoldable pub become_follower : Raft → ℕ → ℕ → Fallible Raft
become_follower r term leader = reset (record r { step = step_follower }) term >>= λ r'.
    ok (record r' { tick = tick_election; lead = leader; state = state_follower })

unfoldable pub become_candidate : Raft → Fallible Raft
become_candidate r =
    if is_leader r.state
    then panic raised
    else (reset (record r { step = step_candidate }) (add64 r.term 1) >>= λ r'.
        ok (record r' { tick = tick_election; vote = r'.id; state = state_candidate }))

unfoldable pub become_pre_candidate : Raft → Fallible Raft
become_pre_candidate r =
    if is_leader r.state
    then panic raised
    else ok (record r {
      step = step_candidate;
      trk = reset_votes r.trk;
      tick = tick_election;
      lead = 0;
      state = state_pre_candidate;
    })

-- The loop of `appendEntry`, which numbers the entries from `index` on.
unfoldable pub number_entries : ℕ → ℕ → List Entry → List Entry
number_entries term index [] = []
number_entries term index (e ∷ es) =
    record e { term = term; index = index } ∷ number_entries term (add64 index 1) es

-- It always accepts.
unfoldable pub append_entry : Raft → List Entry → Fallible Raft
unfolding number_entries
append_entry r es = do
  li ← Log.last_index r.raft_log
  (l, last) ← Log.append r.raft_log (number_entries r.term (add64 li 1) es)
  send (record r { raft_log = l }) (record (message msg_app_resp r.id) { index = last })

abbrev pub empty_entry : Entry
empty_entry = record { term = 0; index = 0; typ = entry_normal; payload = none }

-- The state of a new leader before it appends its first entry.
unfoldable pub take_lead : Raft → Fallible Raft
take_lead r = do
  r₁ ← reset (record r { step = step_leader }) r.term
  pr ← deref (lookup r₁.trk.progress r₁.id)
  let own = record (become_replicate pr) { recent_active = true }
  last ← Log.last_index r₁.raft_log
  ok (record r₁ {
    tick = tick_heartbeat;
    lead = r₁.id;
    state = state_leader;
    trk = record (r₁.trk) { progress = insert r₁.trk.progress r₁.id own };
    pending_conf_index = last;
  })

unfoldable pub become_leader : Raft → Fallible Raft
become_leader r =
    if is_follower r.state
    then panic raised
    else (take_lead r >>= λ r'. append_entry r' (empty_entry ∷ []))
