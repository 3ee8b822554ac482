-- ===== src/Http.antt =====
-- raft/http: urlpick.go, and from peer.go the choice of a channel for a message and `send`. The type of URLs
-- and their test for equality are parameters; a buffered channel is the list that it holds.
use yyckv.Base.{
  ℕ, ◌+◌, ◌%◌, Bool, true, false, List, [], ◌∷◌, ◌++◌, length, ltb, ◌&&◌, if◌then◌else◌, Fallible,
  ok, index, ◌>>=◌,
}
use yyckv.Pb.{Message, MessageType, msg_app, msg_snap}
pub mod Turns
pub mod Sent
pub mod Pipeline
pub mod Transport
pub mod Handler
pub mod Body
pub mod Versions
pub mod Dialing

pub record UrlPicker (U : Type 0) : Type 0 where
  pub urls : List U
  pub picked : ℕ

module _ {U : Type 0} where
  abbrev pub new_url_picker : List U → UrlPicker U
  new_url_picker urls = record { urls = urls; picked = 0 }

  unfoldable pub update : UrlPicker U → List U → UrlPicker U
  update p urls = record { urls = urls; picked = 0 }

  unfoldable pub pick_url : UrlPicker U → Fallible U
  pick_url p = index p.urls p.picked

  unfoldable pub unreachable : (U → U → Bool) → UrlPicker U → U → Fallible (UrlPicker U)
  unreachable same p u = index p.urls p.picked >>= λ now.
      ok (if same u now then record p { picked = (p.picked + 1) % length p.urls } else p)

-- A writer of a stream, with the messages in its channel.
pub record StreamWriter : Type 0 where
  pub working : Bool
  pub msgc : List Message

pub record StreamReader : Type 0 where
  pub paused : Bool

pub record Peer : Type 0 where
  pub id : ℕ
  pub paused : Bool
  pub msg_app_v2_writer : StreamWriter
  pub writer : StreamWriter
  pub pipeline : List Message
  pub msg_app_v2_reader : StreamReader
  pub msg_app_reader : StreamReader
  pub reported : List ℕ

pub data Channel : Type 0 where
  to_msg_app_v2 to_writer to_pipeline : Channel

abbrev pub stream_buf_size : ℕ
stream_buf_size = 4096

abbrev pub pipeline_buf_size : ℕ
pipeline_buf_size = 64

abbrev pub is_msg_app : MessageType → Bool
is_msg_app msg_app = true
is_msg_app _ = false

abbrev pub is_msg_snap : MessageType → Bool
is_msg_snap msg_snap = true
is_msg_snap _ = false

unfoldable pub pick : Peer → Message → Channel
pick p m =
    if is_msg_snap m.typ
    then to_pipeline
    else if p.msg_app_v2_writer.working && is_msg_app m.typ
    then to_msg_app_v2
    else if p.writer.working
    then to_writer
    else to_pipeline

abbrev pub report : Peer → ℕ → Peer
report p id = record p { reported = p.reported ++ (id ∷ []) }

-- The `select` on the channel: the message is sent if there is room.
unfoldable pub send_on : Channel → Peer → Message → Peer
send_on to_msg_app_v2 p m =
    if ltb (length p.msg_app_v2_writer.msgc) stream_buf_size
    then record p {
      msg_app_v2_writer = record (p.msg_app_v2_writer) {
        msgc = p.msg_app_v2_writer.msgc ++ (m ∷ []);
      };
    }
    else report p m.to
send_on to_writer p m =
    if ltb (length p.writer.msgc) stream_buf_size
    then record p { writer = record (p.writer) { msgc = p.writer.msgc ++ (m ∷ []) } }
    else report p m.to
send_on to_pipeline p m =
    if ltb (length p.pipeline) pipeline_buf_size
    then record p { pipeline = p.pipeline ++ (m ∷ []) }
    else report p m.to

unfoldable pub send : Peer → Message → Peer
unfolding pick send_on
send p m = if p.paused then p else send_on (pick p m) p m
