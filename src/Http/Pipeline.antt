-- ===== src/Http/Pipeline.antt =====
-- raft/http: pipeline.go, peer_status.go, and from util.go the response to a POST. Four handlers take the
-- messages of a pipeline: a step is a handler that takes one and picks a URL for its request, or one whose
-- request ends. `same` is the equality of URLs, and `marshal` the generated method.
use yyckv.Base.{
  ℕ, zero, suc, ◌+◌, Bool, true, false, Option, none, some, List, [], ◌∷◌, ◌++◌, length, get_elem?,
  ltb, ◌==◌, if◌then◌else◌, Fallible, ok, panic, log_panic, ◌>>=◌, Text, codes, same_text,
}
use yyckv.Base.Words.{trim_suffix}
use yyckv.Pb.{Message}
use yyckv.Pb.Marshal.{must_marshal}
use yyckv.Http.{UrlPicker, pick_url, unreachable}
pub mod Posts
pub mod Rounds

-- `since` is `none` for the zero time.
pub record PeerStatus : Type 0 where
  pub active : Bool
  pub since : Option ℕ

abbrev pub new_peer_status : PeerStatus
new_peer_status = record { active = false; since = none }

unfoldable pub activate : ℕ → PeerStatus → PeerStatus
activate now s = if s.active then s else record { active = true; since = some now }

unfoldable pub deactivate : PeerStatus → PeerStatus
deactivate s = if s.active then record { active = false; since = none } else s

-- What comes of a request: it cannot be made, the round trip or the reading of the body fails, or there is
-- a status code and a body.
pub data Reply : Type 0 where
  no_request failed_trip failed_body : Reply
  answered : ℕ → Text → Reply

pub data PostError : Type 0 where
  trip_error body_error incompatible_version cluster_id_mismatch member_removed : PostError
  unhandled : Text → PostError
  unexpected_status : ℕ → PostError

abbrev pub is_member_removed : PostError → Bool
is_member_removed member_removed = true
is_member_removed _ = false

unfoldable pub precondition_error : Text → PostError
precondition_error body =
    let text = trim_suffix body 10 in
    if same_text text (codes "incompatible version")
    then incompatible_version
    else if same_text text (codes "cluster ID mismatch")
    then cluster_id_mismatch
    else unhandled body

unfoldable pub check_post_response : ℕ → Text → Option PostError
unfolding precondition_error
check_post_response status body =
    if status == 412
    then some (precondition_error body)
    else if status == 403
    then some member_removed
    else if status == 204
    then none
    else some (unexpected_status status)

-- A message that a handler posts to a URL.
pub record Post (U : Type 0) : Type 0 where
  pub m : Message
  pub url : U

pub record Pipeline (U : Type 0) : Type 0 where
  pub picker : UrlPicker U
  pub status : PeerStatus
  pub msgc : List Message
  pub posts : List (Post U)
  pub reported : List ℕ
  pub critical : List PostError

abbrev pub conn_per_pipeline : ℕ
conn_per_pipeline = 4

-- `heard` tells whether someone receives from `errorc`.
pub data Turn : Type 0 where
  begin : Turn
  finish : (i : ℕ) → Reply → (heard : Bool) → (now : ℕ) → Turn

module _ {U : Type 0} where
  abbrev pub start : UrlPicker U → PeerStatus → Pipeline U
  start picker status = record {
    picker = picker;
    status = status;
    msgc = [];
    posts = [];
    reported = [];
    critical = [];
  }

  -- A handler that is free receives a message of the channel, and `post` picks a URL.
  unfoldable pub receive :
      (Message → Option Text) → Pipeline U → List Message → Fallible (Pipeline U)
  receive marshal p [] = ok p
  receive marshal p (m ∷ ms) =
      if ltb (length p.posts) conn_per_pipeline
      then (must_marshal marshal m >>= λ _. pick_url p.picker >>= λ u.
          ok (record p { msgc = ms; posts = p.posts ++ ((record { m = m; url = u }) ∷ []) }))
      else ok p

  abbrev pub begin_post : (Message → Option Text) → Pipeline U → Fallible (Pipeline U)
  begin_post marshal p = receive marshal p p.msgc

  abbrev pub fail :
      (U → U → Bool) → Pipeline U → U → PostError → Fallible (Pipeline U × Option PostError)
  fail same p u e =
      unreachable same p.picker u >>= λ picker. ok (record p { picker = picker }, some e)

  unfoldable pub report_critical_error : Bool → PostError → Pipeline U → Pipeline U
  report_critical_error heard e p =
      if heard then record p { critical = p.critical ++ (e ∷ []) } else p

  -- The rest of `post`, with its error.
  unfoldable pub end_post :
      (U → U → Bool) → Pipeline U → U → Reply → Bool → Fallible (Pipeline U × Option PostError)
  unfolding report_critical_error check_post_response
  end_post same p u no_request heard = panic log_panic
  end_post same p u failed_trip heard = fail same p u trip_error
  end_post same p u failed_body heard = fail same p u body_error
  end_post same p u (answered status body) heard = elim (check_post_response status body) [
    | none ↦ ok (p, none)
    | some e ↦ fail same p u e >>= λ s.
        ok (if is_member_removed e then report_critical_error heard e s.0 else s.0, s.1)
  ]

  -- What `handle` does with the error of `post`.
  unfoldable pub settle : ℕ → Pipeline U → Message → Option PostError → Pipeline U
  unfolding activate deactivate
  settle now p m none = record p { status = activate now p.status }
  settle now p m (some e) = record p {
    status = deactivate p.status;
    reported = p.reported ++ (m.to ∷ []);
  }

  -- The posts but the one with the number `i`.
  abbrev pub without : ℕ → List (Post U) → List (Post U)
  without i [] = []
  without zero (f ∷ fs) = fs
  without (suc i) (f ∷ fs) = f ∷ without i fs

  -- With the message of a post that has ended, and its error.
  unfoldable pub finish_post :
      (U → U → Bool)
      → Pipeline U
      → ℕ
      → Reply
      → Bool
      → ℕ
      → Fallible (Pipeline U × List (Message × Option PostError))
  unfolding end_post settle
  finish_post same p i reply heard now = elim (get_elem? p.posts i) [
    | none ↦ ok (p, [])
    | some f ↦ end_post same (record p { posts = without i p.posts }) f.url reply heard >>= λ s.
        ok (settle now s.0 f.m s.1, (f.m, s.1) ∷ [])
  ]

  unfoldable pub serve :
      (Message → Option Text)
      → (U → U → Bool)
      → Pipeline U
      → Turn
      → Fallible (Pipeline U × List (Message × Option PostError))
  unfolding receive finish_post
  serve marshal same p begin = begin_post marshal p >>= λ q. ok (q, [])
  serve marshal same p (finish i reply heard now) = finish_post same p i reply heard now

  -- The handlers together, with the posts that have ended, in order.
  unfoldable pub handle :
      (Message → Option Text)
      → (U → U → Bool)
      → Pipeline U
      → List Turn
      → Fallible (Pipeline U × List (Message × Option PostError))
  unfolding serve
  handle marshal same p [] = ok (p, [])
  handle marshal same p (t ∷ ts) =
      serve marshal same p t >>= λ s. handle marshal same s.0 ts >>= λ r. ok (r.0, s.1 ++ r.1)
