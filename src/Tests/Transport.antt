-- ===== src/Tests/Transport.antt =====
-- The theorems on the transport at concrete inputs.
use yyckv.Base.{
  Text, codes, ℕ, ◌+◌, ◌-◌, ◌<◌, ◌≡◌, ◌↔◌, refl, Bool, true, false, Option, none, some, List, [],
  ◌∷◌, ok, arith, ◌==◌, Returns,
}
use yyckv.Pb.{Message, message, msg_app}
use yyckv.Http.Pipeline.{
  Pipeline, Turn, begin, finish, failed_trip, answered, handle, new_peer_status,
  check_post_response,
}
use yyckv.Http.Pipeline.Rounds.{Handles, handle-Handles}
use yyckv.Http.Transport.{Transport}
use yyckv.Http.Transport
use yyckv.Http.Transport.Sending.{ends, deliver_all, messages_to, send-ends}
use yyckv.Http.Handler.{
  ProcessError, other, create_post_request, add_remote_from_request, serve_http,
}
use yyckv.Http.Handler.Delivery.{
  add_remote_from_request-create_post_request, serve_http-check_post_response,
}
use yyckv.Http.{UrlPicker, Peer, send}
use yyckv.Http.Turns.{report_picked, unreachable-pick_url}
use yyckv.Http.Sent.{IsSent, send_lem}

-- Three URLs, of which the second is picked.
abbrev picker : UrlPicker ℕ
picker = record { urls = 10 ∷ 20 ∷ 30 ∷ []; picked = 1 }

abbrev same : ℕ → ℕ → Bool
same u v = u == v

unreachable-pick_url_example :
    ((k : ℕ) → 1 + k < 3 → report_picked same k picker ≡ ok (record picker { picked = 1 + k }))
    × (report_picked same (3 - 1) picker ≡ ok (record picker { picked = 0 }))
unreachable-pick_url_example = unreachable-pick_url same picker (λ u. ground arith) (omega arith)

-- A peer with one stream that works.
abbrev peer : Peer
peer = record {
  id = 2;
  paused = false;
  msg_app_v2_writer = record { working = false; msgc = [] };
  writer = record { working = true; msgc = [] };
  pipeline = [];
  msg_app_v2_reader = record { paused = false };
  msg_app_reader = record { paused = false };
  reported = [];
}

send_lem_example : IsSent peer (message msg_app 2) (send peer (message msg_app 2))
send_lem_example = send_lem peer (message msg_app 2) refl

-- Three messages wait in a pipeline; the first two are posted at the same time, and the second post ends first.
abbrev pipeline : Pipeline ℕ
pipeline = record {
  picker = picker;
  status = new_peer_status;
  msgc = message msg_app 2 ∷ message msg_app 2 ∷ message msg_app 2 ∷ [];
  posts = [];
  reported = [];
  critical = [];
}

abbrev turns : List Turn
turns = begin ∷ begin ∷ finish 1 (answered 204 []) false 7 ∷ finish 0 failed_trip false 8 ∷ []

abbrev marshal : Message → Option Text
marshal m = some (m.to ∷ [])

handle-Handles_example : Returns (handle marshal same pipeline turns) (Handles pipeline)
handle-Handles_example =
    handle-Handles marshal same pipeline turns (λ m e. ground (arith, e)) (tt, (tt, (tt, (tt, tt))))
      (omega arith, omega arith)

-- A peer, and a remote for another node.
abbrev transport : Transport ℕ
transport = record {
  has_logger = true;
  remotes = some ((3, []) ∷ []);
  peers = some ((2, (picker, peer)) ∷ []);
}

abbrev outgoing : List Message
outgoing = message msg_app 3 ∷ message msg_app 2 ∷ message msg_app 0 ∷ message msg_app 2 ∷ []

send-ends_example :
    ends (Transport.send transport outgoing) 2
    ≡ deliver_all (ends transport 2) (messages_to 2 outgoing)
send-ends_example = send-ends transport outgoing 2 (omega arith)

add_remote_from_request-create_post_request_example :
    add_remote_from_request
      (create_post_request 28 (some (codes "http://a:1" ∷ codes "http://b:2" ∷ [])) [])
    ≡ (28, codes "http://a:1" ∷ codes "http://b:2" ∷ []) ∷ []
add_remote_from_request-create_post_request_example =
    add_remote_from_request-create_post_request 28 b'h' (codes "ttp://a:1")
      (codes "http://b:2" ∷ []) [] (omega arith) (omega arith)

abbrev unmarshal : Text → Option Message
unmarshal b = some (message msg_app 2)

-- The node has been stopped.
abbrev process : Message → Option ProcessError
process m = some other

serve_http-check_post_response_example :
    let s = serve_http unmarshal process 4096 (create_post_request 1 none []) in
    (s.processed ≡ message msg_app 2 ∷ [])
    × ((check_post_response s.response.status s.response.body ≡ none)
        ↔ (process (message msg_app 2) ≡ none))
serve_http-check_post_response_example =
    serve_http-check_post_response unmarshal process 4096 1 none [] (message msg_app 2) refl
      λ status text e. ground (arith, e)
