-- ===== src/Http/Handler/Delivery.antt =====
-- raft/http: the two ends of a post.
use yyckv.Base.{
  Text, ℕ, ◌<◌, ◌≡◌, ◌≢◌, refl, ap, Option, none, some, List, [], ◌∷◌, All, arith, Option-cases,
  inl, inr, ◌↔◌,
}
use yyckv.Base.Word.{modulus}
use yyckv.Base.Numerals.{hexadecimal}
use yyckv.Base.Numerals.RoundTrip.{parse_uint-format_uint}
use yyckv.Base.Words.Split.{Lacks, split-join_more}
use yyckv.Pb.{Message}
use yyckv.Http.Pipeline.{check_post_response}
use yyckv.Http.Handler.{
  ProcessError, writes, other, id_string, id_from_string, create_post_request,
  add_remote_from_request, serve_http,
}

-- The identity of a node is read back from its text.
pub id_from_string-id_string : (id : ℕ) → id < modulus → id_from_string (id_string id) ≡ some id
id_from_string-id_string id h = parse_uint-format_uint hexadecimal id h

-- If the first URL of a node is not empty, and none holds a comma, then the handler of a post reads the
-- identity of the node and its URLs from the headers.
pub add_remote_from_request-create_post_request :
    (from : ℕ) (c : ℕ) (cs : Text) (us : List Text) (b : Text)
    → from < modulus
    → All (Lacks 44) ((c ∷ cs) ∷ us)
    → add_remote_from_request (create_post_request from (some ((c ∷ cs) ∷ us)) b)
      ≡ (from, (c ∷ cs) ∷ us) ∷ []
unfolding add_remote_from_request
add_remote_from_request-create_post_request from c cs us b fits lacks =
    rw (add_remote_from_request, id_from_string-id_string from fits)
      (ap (λ p. (from, p.0 ∷ p.1) ∷ []) (split-join_more 44 (c ∷ cs) us lacks.0 lacks.1))

module _ (unmarshal : Text → Option Message) (process : Message → Option ProcessError)
    (cid : ℕ) where
  -- If the bytes are read back as the message, the handler of a post processes the message, once, and no
  -- other, and if no error of `Process` writes its own status, then the sender counts the post as a success
  -- if and only if the message was processed without an error.
  pub serve_http-check_post_response :
      (from : ℕ) (urls : Option (List Text)) (b : Text) (m : Message)
      → unmarshal b ≡ some m
      → ((status : ℕ) (text : Text) → process m ≢ some (writes status text))
      → let s = serve_http unmarshal process cid (create_post_request from urls b) in
        (s.processed ≡ m ∷ [])
        × ((check_post_response s.response.status s.response.body ≡ none) ↔ (process m ≡ none))
  unfolding serve_http check_post_response
  serve_http-check_post_response from urls b m read plain = elim (Option-cases (process m)) [
    | inl fine ↦ rw (serve_http, read, fine) (refl, (λ _. refl, λ _. refl))
    | inr (writes status text, e) ↦ absurd (plain status text e)
    | inr (other, e) ↦
        rw (serve_http, read, e) (refl, (λ h. ground (arith, h), λ h. ground (arith, h)))
  ]
