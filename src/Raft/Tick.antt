-- ===== src/Raft/Tick.antt =====
-- raft/core/raft.go: the two tick functions. An error of `Step` is only logged.
use yyckv.Base.{ℕ, suc, Bool, leb, ◌&&◌, if◌then◌else◌, Fallible, ok, ◌>>=◌}
use yyckv.Pb.{message, Message, MessageType, msg_hup, msg_beat, msg_check_quorum}
use yyckv.Raft.{Raft, TickFunc, tick_election, tick_heartbeat, is_leader}
use yyckv.Raft.Campaign.{promotable}
use yyckv.Raft.Step.{step}

abbrev pub local_message : MessageType → ℕ → Message
local_message t id = record (message t 0) { from = id }

unfoldable pub past_election_timeout : Raft → Bool
past_election_timeout r = leb r.randomized_election_timeout r.election_elapsed

unfoldable pub on_tick_election : Raft → Fallible Raft
unfolding past_election_timeout
on_tick_election r =
    let r₁ = record r { election_elapsed = suc r.election_elapsed } in
    if promotable r₁ && past_election_timeout r₁
    then (step (record r₁ { election_elapsed = 0 }) (local_message msg_hup r.id) >>= λ s. ok s.0)
    else ok r₁

unfoldable pub check_leadership : Raft → Fallible Raft
check_leadership r =
    if leb r.election_timeout r.election_elapsed
    then (let r₁ = record r { election_elapsed = 0 } in
        if r.check_quorum
        then (step r₁ (local_message msg_check_quorum r.id) >>= λ s. ok s.0)
        else ok r₁)
    else ok r

unfoldable pub beat : Raft → Fallible Raft
beat r =
    if is_leader r.state && leb r.heartbeat_timeout r.heartbeat_elapsed
    then (step (record r { heartbeat_elapsed = 0 }) (local_message msg_beat r.id) >>= λ s. ok s.0)
    else ok r

unfoldable pub on_tick_heartbeat : Raft → Fallible Raft
unfolding check_leadership beat
on_tick_heartbeat r =
    check_leadership (record r {
      heartbeat_elapsed = suc r.heartbeat_elapsed;
      election_elapsed = suc r.election_elapsed;
    })
    >>= beat

unfoldable pub call_tick : TickFunc → Raft → Fallible Raft
call_tick tick_election r = on_tick_election r
call_tick tick_heartbeat r = on_tick_heartbeat r
