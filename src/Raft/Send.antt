-- ===== src/Raft/Send.antt =====
-- raft/core/raft.go: `send`, which queues a message.
use yyckv.Base.{
  Bool, true, false, [], ◌∷◌, ◌++◌, ◌==◌, if◌then◌else◌, Fallible, ok, panic, log_panic, ◌>>=◌,
}
use yyckv.Pb.{
  Message, MessageType, msg_vote, msg_vote_resp, msg_pre_vote, msg_pre_vote_resp, msg_prop,
  msg_read_index, msg_app_resp,
}
use yyckv.Raft.{Raft}

abbrev pub is_campaign_type : MessageType → Bool
is_campaign_type msg_vote = true
is_campaign_type msg_vote_resp = true
is_campaign_type msg_pre_vote = true
is_campaign_type msg_pre_vote_resp = true
is_campaign_type _ = false

abbrev pub is_forwarded_type : MessageType → Bool
is_forwarded_type msg_prop = true
is_forwarded_type msg_read_index = true
is_forwarded_type _ = false

-- The types that wait for the unstable state to be durable.
abbrev pub is_durable_type : MessageType → Bool
is_durable_type msg_app_resp = true
is_durable_type msg_vote_resp = true
is_durable_type msg_pre_vote_resp = true
is_durable_type _ = false

unfoldable pub with_sender : Raft → Message → Message
with_sender r m = if m.from == 0 then record m { from = r.id } else m

unfoldable pub with_term : Raft → Message → Fallible Message
with_term r m =
    if is_campaign_type m.typ
    then if m.term == 0 then panic log_panic else ok m
    else if m.term == 0
    then ok (if is_forwarded_type m.typ then m else record m { term = r.term })
    else panic log_panic

unfoldable pub enqueue : Raft → Message → Fallible Raft
enqueue r m =
    if is_durable_type m.typ
    then ok (record r { msgs_after_append = r.msgs_after_append ++ (m ∷ []) })
    else if m.to == r.id
    then panic log_panic
    else ok (record r { msgs = r.msgs ++ (m ∷ []) })

unfoldable pub send : Raft → Message → Fallible Raft
unfolding with_sender with_term enqueue
send r m = with_term r (with_sender r m) >>= enqueue r
