-- ===== src/Http/Versions.antt =====
-- raft/http: from stream.go the types of streams and the versions that support them, and from util.go the
-- comparison of versions. `less` is `LessThan` of semver, and a nil version is `none`. A version stands
-- for its major and minor numbers, since the text of one is its numbers between dots.
use yyckv.Base.{
  Text, codes, ℕ, Bool, true, false, Option, none, some, [], ◌==◌, ◌&&◌, ◌||◌, if◌then◌else◌,
  Fallible, ok, panic, log_panic, deref, ◌>>=◌, leb,
}
use yyckv.Pb.{Message, MessageType, msg_heartbeat}

pub data StreamType : Type 0 where
  stream_message stream_msg_app_v2 : StreamType
  other_type : Text → StreamType

abbrev pub stream_type_string : StreamType → Text
stream_type_string stream_msg_app_v2 = codes "stream MsgApp v2"
stream_type_string stream_message = codes "stream Message"
stream_type_string (other_type t) = codes "unknown stream"

unfoldable pub endpoint : Bool → StreamType → Fallible Text
endpoint has_logger stream_msg_app_v2 = ok (codes "/raft/stream/msgapp")
endpoint has_logger stream_message = ok (codes "/raft/stream/message")
endpoint has_logger (other_type t) = if has_logger then panic log_panic else ok []

pub record Version : Type 0 where
  pub major : ℕ
  pub minor : ℕ
  pub patch : ℕ

-- The keys of `supportedStream` with streams: 2.1 to 2.3, and 3.0 to 3.6.
abbrev pub has_streams : ℕ → ℕ → Bool
has_streams major minor =
    (major == 2 && (leb 1 minor && leb minor 3)) || (major == 3 && leb minor 6)

unfoldable pub check_stream_support : Version → StreamType → Bool
check_stream_support v stream_msg_app_v2 = has_streams v.major v.minor
check_stream_support v stream_message = has_streams v.major v.minor
check_stream_support v (other_type t) = false

abbrev is_msg_heartbeat : MessageType → Bool
is_msg_heartbeat msg_heartbeat = true
is_msg_heartbeat _ = false

unfoldable pub is_link_heartbeat_message : Message → Bool
is_link_heartbeat_message m = is_msg_heartbeat m.typ && (m.from == 0 && m.to == 0)

pub data Compared : Type 0 where
  lower equal higher : Compared

abbrev major_minor : Version → Version
major_minor v = record { major = v.major; minor = v.minor; patch = 0 }

-- The error says which version is too low.
pub data VersionError : Type 0 where
  remote_too_low local_too_low : VersionError

abbrev pub is_lower : Compared → Bool
is_lower lower = true
is_lower _ = false

abbrev pub is_higher : Compared → Bool
is_higher higher = true
is_higher _ = false

module _ (less : Version → Version → Bool) where
  unfoldable pub compare_major_minor_version : Option Version → Option Version → Fallible Compared
  compare_major_minor_version a b = deref a >>= λ va. deref b >>= λ vb. ok (
      if less (major_minor va) (major_minor vb)
      then lower
      else if less (major_minor vb) (major_minor va)
      then higher
      else equal)

  -- The local versions are never set.
  unfoldable pub check_version_compatibility :
      Option Version → Option Version → Fallible (Option VersionError)
  unfolding compare_major_minor_version
  check_version_compatibility server min_cluster =
      compare_major_minor_version server none >>= λ low.
      if is_lower low
      then ok (some remote_too_low)
      else (compare_major_minor_version min_cluster none >>= λ high.
          ok (if is_higher high then some local_too_low else none))
