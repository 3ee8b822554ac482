-- ===== src/HttpApi.antt =====
-- httpapi.go: the requests of clients. The router, which picks the handler by the path and gives it the
-- variables of the path, is not modelled; `encode` is gob.
use yyckv.Base.{
  Text, codes, ℕ, Bool, true, false, Option, none, some, List, [], ◌∷◌, ◌++◌, Fallible, ok, ◌>>=◌,
}
use yyckv.Base.Numerals.{decimal, parse_uint}
use yyckv.Kv.Store.{KvData, lookup, propose}
pub mod Data

pub data Method : Type 0 where
  put get delete post : Method

pub record Response : Type 0 where
  pub status : ℕ
  pub body : Text

-- `http.Error`.
abbrev pub error : Text → ℕ → Response
error text status = record { status = status; body = text ++ (10 ∷ []) }

-- A handler that writes nothing.
abbrev pub nothing : Response
nothing = record { status = 200; body = [] }

-- The response, and what is sent on `proposeC`. `body` is what `io.ReadAll` returns of the body.
unfoldable pub handle_data_request :
    (Text × Text → Option Text)
    → KvData
    → Method
    → Text
    → Option Text
    → Fallible (Response × List Text)
handle_data_request encode d put key none = ok (error (codes "Failed on PUT") 400, [])
handle_data_request encode d put key (some val) =
    propose encode key val >>= λ t. ok (record { status = 204; body = [] }, t ∷ [])
handle_data_request encode d get key body = ok (
  elim (lookup d key) [
    | some val ↦ record { status = 200; body = val }
    | none ↦ error (codes "Failed to GET, probably the given key does not exist") 404
  ],
  [],
)
handle_data_request encode d delete key body = ok (nothing, [])
handle_data_request encode d post key body = ok (nothing, [])

unfoldable pub handle_topology_change_request : Text → Method → Response
handle_topology_change_request id_str method = elim (parse_uint decimal id_str) [
  | none ↦ error (codes "Invalid node ID") 400
  | some id ↦ nothing
]
