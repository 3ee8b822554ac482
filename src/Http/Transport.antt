-- ===== src/Http/Transport.antt =====
-- raft/http: transport.go, remote.go, and from peer.go and stream.go the start of a peer, its pause, and
-- the close of a writer. `AddRemote`, `removePeer` and the others whose bodies are still to be written do
-- nothing. A map that is nil is `none`. A remote is the channel of its pipeline.
use yyckv.Base.{
  Text, ℕ, Bool, true, false, not, Option, none, some, List, [], ◌∷◌, ◌++◌, length, lookup, insert,
  ltb, ◌==◌, if◌then◌else◌, Fallible, ok, panic, log_panic, raised,
}
use yyckv.Pb.{Message}
use yyckv.Http.{UrlPicker, new_url_picker, StreamWriter, StreamReader, Peer, pipeline_buf_size}
use yyckv.Http
pub mod Sending

-- The channel of the new stream is made with an empty buffer.
unfoldable pub close_unlocked : ℕ → StreamWriter → StreamWriter × List ℕ × Bool
close_unlocked peer_id w = if not w.working then (w, [], false) else (
  record { working = false; msgc = [] },
  if ltb 0 (length w.msgc) then peer_id ∷ [] else [],
  true,
)

abbrev pub pause : Peer → Peer
pause p = record p {
  paused = true;
  msg_app_reader = record { paused = true };
  msg_app_v2_reader = record { paused = true };
}

abbrev pub resume : Peer → Peer
resume p = record p {
  paused = false;
  msg_app_reader = record { paused = false };
  msg_app_v2_reader = record { paused = false };
}

abbrev pub start_stream_writer : StreamWriter
start_stream_writer = record { working = false; msgc = [] }

abbrev pub start_peer : ℕ → Peer
start_peer id = record {
  id = id;
  paused = false;
  msg_app_v2_writer = start_stream_writer;
  writer = start_stream_writer;
  pipeline = [];
  msg_app_v2_reader = record { paused = false };
  msg_app_reader = record { paused = false };
  reported = [];
}

-- `remote.send`: without room, the message is dropped.
unfoldable pub send_remote : List Message → Message → List Message
send_remote msgc m = if ltb (length msgc) pipeline_buf_size then msgc ++ (m ∷ []) else msgc

-- A peer stands with its picker.
pub record Transport (U : Type 0) : Type 0 where
  pub has_logger : Bool
  pub remotes : Option (List (ℕ × List Message))
  pub peers : Option (List (ℕ × (UrlPicker U × Peer)))

-- `m[k]`, where the map may be nil.
abbrev pub find {ℓ} : {V : Type ℓ} → Option (List (ℕ × V)) → ℕ → Option V
find none k = none
find (some m) k = lookup m k

-- `m[k]` for a key of the map gets another value.
abbrev pub put {ℓ} : {V : Type ℓ} → Option (List (ℕ × V)) → ℕ → V → Option (List (ℕ × V))
put none k v = none
put (some m) k v = some (insert m k v)

module _ {U : Type 0} where
  -- The round trippers can be made.
  unfoldable pub start : Bool → Bool → Transport U → Transport U × Bool
  start stream_rt pipeline_rt t =
      if not stream_rt
      then (t, false)
      else if not pipeline_rt
      then (t, false)
      else (record t { remotes = some []; peers = some [] }, true)

  abbrev pub get : Transport U → ℕ → Option (UrlPicker U × Peer)
  get t id = find t.peers id

  -- `new_urls` is `NewURLs`, whose error leaves no URLs.
  unfoldable pub add_peer :
      (List Text → Option (List U)) → Transport U → ℕ → List Text → Fallible (Transport U)
  add_peer new_urls t id us = elim t.peers [
    | none ↦ panic raised
    | some peers ↦ elim (lookup peers id) [
      | some _ ↦ ok t
      | none ↦ elim (new_urls us) [
        | some urls ↦
            ok (record t { peers = some (insert peers id (new_url_picker urls, start_peer id)) })
        | none ↦
            if t.has_logger
            then panic log_panic
            else ok (record t { peers = some (insert peers id (new_url_picker [], start_peer id)) })
      ]
    ]
  ]

  -- A round of the loop of `Send`.
  unfoldable pub send_one : Transport U → Message → Transport U
  unfolding send_remote
  send_one t m = if m.to == 0 then t else elim (find t.peers m.to) [
    | some (picker, p) ↦ record t { peers = put t.peers m.to (picker, Http.send p m) }
    | none ↦ elim (find t.remotes m.to) [
      | some g ↦ record t { remotes = put t.remotes m.to (send_remote g m) }
      | none ↦ t
    ]
  ]

  unfoldable pub send : Transport U → List Message → Transport U
  unfolding send_one
  send t [] = t
  send t (m ∷ ms) = send (send_one t m) ms

  abbrev pub remove_peer : Transport U → ℕ → Transport U
  remove_peer t id = t
