-- ===== src/Pb/Types.antt =====
-- raft/raftpb/raft.pb.go: the enumerations, with their wire values, and the structs.
use yyckv.Base.{ℕ, Bool, false, Option, none, List, [], ◌==◌}

pub data EntryType : Type 0 where
  entry_normal entry_conf_change entry_conf_change_v2 : EntryType

abbrev pub entry_type_value : EntryType → ℕ
entry_type_value entry_normal = 0
entry_type_value entry_conf_change = 1
entry_type_value entry_conf_change_v2 = 2

pub data MessageType : Type 0 where
  msg_hup msg_beat msg_prop msg_app msg_app_resp msg_vote msg_vote_resp msg_snap : MessageType
  msg_heartbeat msg_heartbeat_resp msg_unreachable msg_snap_status msg_check_quorum : MessageType
  msg_transfer_leader msg_timeout_now msg_read_index msg_read_index_resp msg_pre_vote : MessageType
  msg_pre_vote_resp msg_storage_append msg_storage_append_resp msg_storage_apply : MessageType
  msg_storage_apply_resp msg_forget_leader : MessageType

abbrev pub message_type_value : MessageType → ℕ
message_type_value msg_hup = 0
message_type_value msg_beat = 1
message_type_value msg_prop = 2
message_type_value msg_app = 3
message_type_value msg_app_resp = 4
message_type_value msg_vote = 5
message_type_value msg_vote_resp = 6
message_type_value msg_snap = 7
message_type_value msg_heartbeat = 8
message_type_value msg_heartbeat_resp = 9
message_type_value msg_unreachable = 10
message_type_value msg_snap_status = 11
message_type_value msg_check_quorum = 12
message_type_value msg_transfer_leader = 13
message_type_value msg_timeout_now = 14
message_type_value msg_read_index = 15
message_type_value msg_read_index_resp = 16
message_type_value msg_pre_vote = 17
message_type_value msg_pre_vote_resp = 18
message_type_value msg_storage_append = 19
message_type_value msg_storage_append_resp = 20
message_type_value msg_storage_apply = 21
message_type_value msg_storage_apply_resp = 22
message_type_value msg_forget_leader = 23

-- `s == t` on message types.
abbrev pub same_type : MessageType → MessageType → Bool
same_type s t = message_type_value s == message_type_value t

-- `data` is `none` for a nil slice.
pub record Entry : Type 0 where
  pub term : ℕ
  pub index : ℕ
  pub typ : EntryType
  pub payload : Option (List ℕ)

abbrev pub bytes : Option (List ℕ) → List ℕ
bytes none = []
bytes (Option.some xs) = xs

pub record ConfState : Type 0 where
  pub voters : List ℕ
  pub learners : List ℕ
  pub voters_outgoing : List ℕ
  pub learners_next : List ℕ
  pub auto_leave : Bool

pub record SnapshotMetadata : Type 0 where
  pub conf_state : ConfState
  pub index : ℕ
  pub term : ℕ

pub record Snapshot : Type 0 where
  pub content : Option (List ℕ)
  pub metadata : SnapshotMetadata

pub record Message : Type 0 where
  pub typ : MessageType
  pub to : ℕ
  pub from : ℕ
  pub term : ℕ
  pub log_term : ℕ
  pub index : ℕ
  pub entries : List Entry
  pub commit : ℕ
  pub vote : ℕ
  pub snapshot : Option Snapshot
  pub reject : Bool
  pub reject_hint : ℕ
  pub context : Option (List ℕ)

-- `pb.Message{Type: t, To: to}`: every other field is zero.
abbrev pub message : MessageType → ℕ → Message
message t dest = record {
  typ = t;
  to = dest;
  from = 0;
  term = 0;
  log_term = 0;
  index = 0;
  entries = [];
  commit = 0;
  vote = 0;
  snapshot = none;
  reject = false;
  reject_hint = 0;
  context = none;
}
