-- ===== src/Util.antt =====
-- raft/core/util.go: classes of messages, and sizes of entries. `int` and `uint64` sums of sizes
-- have the same bits, so both are `add64`.
use yyckv.Base.{
  ℕ, Bool, true, false, List, [], ◌∷◌, ◌++◌, length, ltb, ◌==◌, ◌||◌, if◌then◌else◌, Fallible, ok,
  panic, raised,
}
use yyckv.Base.Word.{add64}
use yyckv.Pb.{
  MessageType, msg_hup, msg_beat, msg_unreachable, msg_snap_status, msg_check_quorum,
  msg_storage_append, msg_storage_append_resp, msg_storage_apply, msg_storage_apply_resp,
  msg_app_resp, msg_vote, msg_vote_resp, msg_heartbeat_resp, msg_read_index_resp, msg_pre_vote,
  msg_pre_vote_resp, Entry, entry_size, bytes,
}
pub mod Limit

-- The arrays `isLocalMsg` and `isResponseMsg`, which `isMsgInArray` reads.
unfoldable pub is_local_msg : MessageType → Bool
is_local_msg msg_hup = true
is_local_msg msg_beat = true
is_local_msg msg_unreachable = true
is_local_msg msg_snap_status = true
is_local_msg msg_check_quorum = true
is_local_msg msg_storage_append = true
is_local_msg msg_storage_append_resp = true
is_local_msg msg_storage_apply = true
is_local_msg msg_storage_apply_resp = true
is_local_msg _ = false

unfoldable pub is_response_msg : MessageType → Bool
is_response_msg msg_app_resp = true
is_response_msg msg_vote_resp = true
is_response_msg msg_heartbeat_resp = true
is_response_msg msg_unreachable = true
is_response_msg msg_read_index_resp = true
is_response_msg msg_pre_vote_resp = true
is_response_msg msg_storage_append_resp = true
is_response_msg msg_storage_apply_resp = true
is_response_msg _ = false

abbrev pub local_append_thread : ℕ
local_append_thread = 18446744073709551615

abbrev pub local_apply_thread : ℕ
local_apply_thread = 18446744073709551614

unfoldable pub is_local_msg_target : ℕ → Bool
is_local_msg_target id = id == local_append_thread || id == local_apply_thread

unfoldable pub vote_resp_msg_type : MessageType → Fallible MessageType
vote_resp_msg_type msg_vote = ok msg_vote_resp
vote_resp_msg_type msg_pre_vote = ok msg_pre_vote_resp
vote_resp_msg_type _ = panic raised

unfoldable pub ents_size_from : ℕ → List Entry → ℕ
ents_size_from size [] = size
ents_size_from size (e ∷ es) = ents_size_from (add64 size (entry_size e)) es

unfoldable pub ents_size : List Entry → ℕ
unfolding ents_size_from
ents_size es = ents_size_from 0 es

-- The loop of `limitSize` over the entries after the first: how many of them are kept.
unfoldable pub limit_rest : ℕ → List Entry → ℕ → List Entry
limit_rest size [] max_size = []
limit_rest size (e ∷ es) max_size =
    let next = add64 size (entry_size e) in
    let rest = e ∷ limit_rest next es max_size in if ltb max_size next then [] else rest

unfoldable pub limit_size : List Entry → ℕ → List Entry
unfolding limit_rest
limit_size [] max_size = []
limit_size (e ∷ es) max_size = e ∷ limit_rest (entry_size e) es max_size

unfoldable pub payload_size : Entry → ℕ
payload_size e = length (bytes e.payload)

unfoldable pub payloads_size : List Entry → ℕ
unfolding payload_size
payloads_size [] = 0
payloads_size (e ∷ es) = add64 (payload_size e) (payloads_size es)

-- Only the allocation differs from `append`.
unfoldable pub extend : List Entry → List Entry → List Entry
extend dst vals = dst ++ vals
