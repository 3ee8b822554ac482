-- ===== src/HttpApi/Data.antt =====
-- httpapi.go: what a client reads after a write.
use yyckv.Base.{
  Text, ◌≡◌, refl, Option, some, List, [], ◌∷◌, ◌++◌, ok, arith, inl, inr, Option-cases,
}
use yyckv.Kv.Store.{KvData, propose, apply_commit}
use yyckv.Kv.Agree.{propose-lookup}
use yyckv.HttpApi.{put, get, Response, handle_data_request}

put-propose :
    (encode : Text × Text → Option Text) (d : KvData) (key val t : Text) (r : Response)
    → handle_data_request encode d put key (some val) ≡ ok (r, t ∷ [])
    → propose encode key val ≡ ok t
unfolding handle_data_request
put-propose encode d key val t r h = elim (Option-cases (encode (key, val))) [
  | inl e ↦ absurd (ground (arith, h, e))
  | inr (u, e) ↦ rw (propose, e) (ground (arith, h, e))
]

-- If gob decodes what it encodes, and the data that a PUT of a key and a value sends is the last of the data
-- that a store applies, then a GET of the key at that store returns the value.
pub handle_data_request-apply_commit :
    (encode : Text × Text → Option Text) (decode : Text → Option (Text × Text)) (key val t : Text)
    (asked d d' : KvData) (body : Option Text) (r : Response) (ts : List Text)
    → ((kv : Text × Text) (u : Text) → encode kv ≡ some u → decode u ≡ some kv)
    → handle_data_request encode asked put key (some val) ≡ ok (r, t ∷ [])
    → apply_commit decode d (ts ++ (t ∷ [])) ≡ ok d'
    → handle_data_request encode d' get key body ≡ ok (record { status = 200; body = val }, [])
unfolding handle_data_request
handle_data_request-apply_commit encode decode key val t asked d d' body r ts gob sent done =
    let found =
      propose-lookup encode decode key val t ts d d' gob (put-propose encode asked key val t r sent)
        done in
    rw (handle_data_request, found) refl
