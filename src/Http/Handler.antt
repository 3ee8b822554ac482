-- ===== src/Http/Handler.antt =====
-- raft/http: http.go, the handler of the messages that pipelines post, and from util.go what it reads of
-- the headers. `unmarshal` is the generated method, and `process` is `Process` of the raft node.
use yyckv.Base.{
  Text, codes, ℕ, Bool, true, false, Option, none, some, List, [], ◌∷◌, ◌++◌, if◌then◌else◌,
  same_text,
}
use yyckv.Base.Numerals.{hexadecimal, format_uint, parse_uint}
use yyckv.Base.Words.{split, join}
use yyckv.Pb.{Message}
pub mod Delivery

-- The headers that the source reads, empty if they are missing. `body` is what `io.ReadAll` returns of it.
pub record Request : Type 0 where
  pub method : Text
  pub server_from : Text
  pub peer_urls : Text
  pub body : Option Text

pub record Response : Type 0 where
  pub status : ℕ
  pub cluster_id : Option Text
  pub allow : Option Text
  pub body : Text

-- The error of `Process`: one that writes a status and a text itself, or another.
pub data ProcessError : Type 0 where
  writes : ℕ → Text → ProcessError
  other : ProcessError

-- What the handler calls, in order, and what it responds; `raises` tells that it panics after that.
pub record Served : Type 0 where
  pub remotes : List (ℕ × List Text)
  pub processed : List Message
  pub response : Response
  pub raises : Bool

-- `ID.String` and `IDFromString`.
abbrev pub id_string : ℕ → Text
id_string id = format_uint hexadecimal id

abbrev pub id_from_string : Text → Option ℕ
id_from_string s = parse_uint hexadecimal s

abbrev id_slice_more : List ℕ → Text
id_slice_more [] = []
id_slice_more (i ∷ is) = 44 ∷ (id_string i ++ id_slice_more is)

abbrev pub id_slice_string : List ℕ → Text
id_slice_string [] = []
id_slice_string (i ∷ is) = id_string i ++ id_slice_more is

-- The URLs of a node, as text; none is the header without a value.
abbrev pub peer_urls_header : Option (List Text) → Text
peer_urls_header none = []
peer_urls_header (some urls) = join 44 urls

-- What the handler reads of the request that a pipeline makes for the bytes of a message.
abbrev pub create_post_request : ℕ → Option (List Text) → Text → Request
create_post_request from urls b = record {
  method = codes "POST";
  server_from = id_string from;
  peer_urls = peer_urls_header urls;
  body = some b;
}

-- The call of `AddRemote`.
unfoldable pub add_remote_from_request : Request → List (ℕ × List Text)
add_remote_from_request r = elim (id_from_string r.server_from) [
  | none ↦ []
  | some from ↦ elim r.peer_urls [
    | [] ↦ []
    | c ∷ cs ↦ let urls = split 44 (c ∷ cs) in (from, urls.0 ∷ urls.1) ∷ []
  ]
]

-- `http.Error` ends the text with a line feed.
abbrev pub http_error : Option Text → Text → ℕ → Response
http_error cid text status = record {
  status = status;
  cluster_id = cid;
  allow = none;
  body = text ++ (10 ∷ []);
}

module _ (unmarshal : Text → Option Message) (process : Message → Option ProcessError)
    (cid : ℕ) where
  abbrev from_process : List (ℕ × List Text) → Message → Option ProcessError → Served
  from_process remotes m none = record {
    remotes = remotes;
    processed = m ∷ [];
    response = record { status = 204; cluster_id = some (id_string cid); allow = none; body = [] };
    raises = false;
  }
  from_process remotes m (some (writes status text)) = record {
    remotes = remotes;
    processed = m ∷ [];
    response = record {
      status = status;
      cluster_id = some (id_string cid);
      allow = none;
      body = text;
    };
    raises = false;
  }
  from_process remotes m (some other) = record {
    remotes = remotes;
    processed = m ∷ [];
    response = http_error (some (id_string cid)) (codes "error processing raft message") 500;
    raises = true;
  }

  abbrev refuse : List (ℕ × List Text) → Text → Served
  refuse remotes text = record {
    remotes = remotes;
    processed = [];
    response = http_error (some (id_string cid)) text 400;
    raises = false;
  }

  unfoldable pub serve_http : Request → Served
  unfolding add_remote_from_request
  serve_http r =
      if same_text r.method (codes "POST")
      then (let remotes = add_remote_from_request r in
          elim r.body [
            | none ↦ refuse remotes (codes "error reading raft message")
            | some b ↦ elim (unmarshal b) [
              | none ↦ refuse remotes (codes "error unmarshalling raft message")
              | some m ↦ from_process remotes m (process m)
            ]
          ])
      else record {
        remotes = [];
        processed = [];
        response = record (http_error none (codes "Method Not Allowed") 405) {
          allow = some (codes "POST");
        };
        raises = false;
      }
