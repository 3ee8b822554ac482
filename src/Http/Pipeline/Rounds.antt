-- ===== src/Http/Pipeline/Rounds.antt =====
-- raft/http/pipeline.go: no message is lost by the handlers.
use yyckv.Base.{
  ℕ, ◌≤◌, ◌<◌, ◌≡◌, ◌≢◌, inl, inr, refl, ap, sym, ◌∙◌, Bool, true, false, Option, none, some, List,
  [], ◌∷◌, ◌++◌, length, All, get_elem?, get_elem?_below, length-append, subst, ltb, arith,
  Bool-cases, Option-cases, Returns, Returns-bind, Text,
}
use mathlib.Core.List.{append_assoc, append-nil, Perm, perm_middle}
use mathlib.Core.List.Perm
use yyckv.Pb.{Message}
use yyckv.Http.{pick_url}
use yyckv.Http.Pipeline.Posts.{
  activate-active, deactivate-active, IsPosted, end_post-IsPosted, without-length, posted,
  posted-append, posted-without,
}
use yyckv.Http.Pipeline.{
  Reply, no_request, failed_trip, failed_body, answered, PostError, Post, Pipeline,
  conn_per_pipeline, Turn, begin, finish, receive, end_post, settle, without, finish_post, serve,
  handle,
}

-- The destinations of the messages whose posts failed.
abbrev pub failed : List (Message × Option PostError) → List ℕ
failed [] = []
failed ((m, none) ∷ os) = failed os
failed ((m, some e) ∷ os) = m.to ∷ failed os

-- The messages whose posts ended.
abbrev pub ended : List (Message × Option PostError) → List Message
ended [] = []
ended ((m, e) ∷ os) = m ∷ ended os

ended-append :
    (os more : List (Message × Option PostError)) → ended (os ++ more) ≡ ended os ++ ended more
ended-append [] more = refl
ended-append ((m, e) ∷ os) more = ap (◌∷◌ m) (ended-append os more)

-- Whether the last post succeeded.
abbrev pub succeeded : Bool → List (Message × Option PostError) → Bool
succeeded b [] = b
succeeded b ((m, none) ∷ os) = succeeded true os
succeeded b ((m, some e) ∷ os) = succeeded false os

failed-append :
    (os more : List (Message × Option PostError)) → failed (os ++ more) ≡ failed os ++ failed more
failed-append [] more = refl
failed-append ((m, none) ∷ os) more = failed-append os more
failed-append ((m, some e) ∷ os) more = ap (◌∷◌ m.to) (failed-append os more)

succeeded-append :
    (b : Bool) (os more : List (Message × Option PostError))
    → succeeded b (os ++ more) ≡ succeeded (succeeded b os) more
succeeded-append b [] more = refl
succeeded-append b ((m, none) ∷ os) more = succeeded-append true os more
succeeded-append b ((m, some e) ∷ os) more = succeeded-append false os more

-- The request can be made.
abbrev pub IsAsked : Turn → Type 0
IsAsked begin = Unit
IsAsked (finish i no_request heard now) = ⊥
IsAsked (finish i _ heard now) = Unit

module _ {U : Type 0} where
  -- A URL is picked, and no more posts are made than there are handlers.
  abbrev pub IsRunning : Pipeline U → Type 0
  IsRunning p = (p.picker.picked < length p.picker.urls) × (length p.posts ≤ conn_per_pipeline)

  -- What the handlers make of a pipeline, and the posts that have ended meanwhile.
  pub record Handles (p : Pipeline U) (s : Pipeline U × List (Message × Option PostError))
      : Type 0 where
    pub runs : IsRunning s.0
    pub urls : s.0.picker.urls ≡ p.picker.urls
    pub reports : s.0.reported ≡ p.reported ++ failed s.1
    pub active : s.0.status.active ≡ succeeded p.status.active s.1
    pub kept : Perm (ended s.1 ++ (s.0.msgc ++ posted s.0.posts)) (p.msgc ++ posted p.posts)

  -- The message of a post that ended leaves the posts.
  settle-kept :
      (i : ℕ) (p q : Pipeline U) (f : Post U)
      → get_elem? p.posts i ≡ some f
      → q.msgc ≡ p.msgc
      → q.posts ≡ without i p.posts
      → Perm (f.m ∷ (q.msgc ++ posted q.posts)) (p.msgc ++ posted p.posts)
  settle-kept i p q f at msgs left =
      rw (msgs, left)
        (Perm.trans (Perm.symm (perm_middle p.msgc (posted (without i p.posts))))
          (Perm.append_left p.msgc (posted-without i p.posts f at)))

  -- The message that a handler took is posted.
  receive-kept :
      (m : Message) (ms : List Message) (posts : List (Post U)) (u : U)
      → Perm (ms ++ posted (posts ++ ((record { m = m; url = u }) ∷ []))) (m ∷ (ms ++ posted posts))
  receive-kept m ms posts u = rw (posted-append posts ((record { m = m; url = u }) ∷ [])) (
      subst (λ x. Perm (ms ++ (posted posts ++ (m ∷ []))) (m ∷ x)) (append-nil (ms ++ posted posts))
        (subst (λ x. Perm x (m ∷ ((ms ++ posted posts) ++ [])))
          (append_assoc ms (posted posts) (m ∷ [])) (perm_middle (ms ++ posted posts) [])))

  settle-Handles :
      (now i : ℕ) (p q : Pipeline U) (f : Post U) (e : Option PostError)
      → get_elem? p.posts i ≡ some f
      → IsRunning p
      → IsPosted (record p { posts = without i p.posts }) q
      → Handles p (settle now q f.m e, (f.m, e) ∷ [])
  unfolding settle
  settle-Handles now i p q f none at run (moved, status, msgs, posts, reports) =
      let n = without-length i p.posts f at in
      let left = ap length posts in
      record {
        runs = (moved.0, omega (arith, n, left, run.1));
        urls = moved.1;
        reports = reports ∙ sym (append-nil p.reported);
        active = activate-active now q.status;
        kept = settle-kept i p q f at msgs posts;
      }
  settle-Handles now i p q f (some e) at run (moved, status, msgs, posts, reports) =
      let n = without-length i p.posts f at in
      let left = ap length posts in
      record {
        runs = (moved.0, omega (arith, n, left, run.1));
        urls = moved.1;
        reports = ap (λ r. r ++ (f.m.to ∷ [])) reports;
        active = deactivate-active q.status;
        kept = settle-kept i p q f at msgs posts;
      }

  -- Nothing happens.
  rest-Handles : (p : Pipeline U) → IsRunning p → Handles p (p, [])
  rest-Handles p run = record {
    runs = run;
    urls = refl;
    reports = sym (append-nil p.reported);
    active = refl;
    kept = Perm.refl (p.msgc ++ posted p.posts);
  }

  finish_post-Handles :
      (same : U → U → Bool) (p : Pipeline U) (i : ℕ) (reply : Reply) (heard : Bool) (now : ℕ)
      → IsRunning p
      → reply ≢ no_request
      → Returns (finish_post same p i reply heard now) (Handles p)
  unfolding finish_post
  finish_post-Handles same p i reply heard now run asked =
      elim (Option-cases (get_elem? p.posts i)) [
        | inl e ↦ rw (finish_post, Returns, e) (rest-Handles p run)
        | inr (f, e) ↦
            rw (finish_post, e)
              (Returns-bind
                (end_post same (record p { posts = without i p.posts }) f.url reply heard) _ _ _
                (end_post-IsPosted same (record p { posts = without i p.posts }) f.url reply heard
                  run.0 asked)
                λ s h. settle-Handles now i p s.0 f s.1 e run h)
      ]

  receive-Handles :
      (marshal : Message → Option Text) (p : Pipeline U) (ms : List Message)
      → ((m : Message) → marshal m ≢ none)
      → IsRunning p
      → p.msgc ≡ ms
      → Returns (receive marshal p ms) λ q. Handles p (q, [])
  unfolding receive pick_url
  receive-Handles marshal p [] fits run e = rest-Handles p run
  receive-Handles marshal p (m ∷ ms) fits run e =
      elim (Bool-cases (ltb (length p.posts) conn_per_pipeline)) [
        | inl free ↦ elim (Option-cases (marshal m)) [
          | inl lost ↦ absurd (fits m lost)
          | inr (d, made) ↦
              let (u, at) = get_elem?_below p.picker.urls p.picker.picked run.0 in
              rw (receive, Returns, free, made, at)
                (record {
                  runs = (
                    run.0,
                    ground (arith, free, length-append p.posts ((record { m = m; url = u }) ∷ [])),
                  );
                  urls = refl;
                  reports = sym (append-nil p.reported);
                  active = refl;
                  kept =
                      subst
                        (λ c.
                          Perm (ms ++ posted (p.posts ++ ((record { m = m; url = u }) ∷ [])))
                            (c ++ posted p.posts))
                        (sym e) (receive-kept m ms p.posts u);
                })
        ]
        | inr full ↦ rw (receive, Returns, full) (rest-Handles p run)
      ]

  Handles-append :
      (p q r : Pipeline U) (os more : List (Message × Option PostError))
      → Handles p (q, os)
      → Handles q (r, more)
      → Handles p (r, os ++ more)
  Handles-append p q r os more h k = record {
    runs = k.runs;
    urls = k.urls ∙ h.urls;
    reports =
        k.reports
        ∙ ap (λ x. x ++ failed more) h.reports
        ∙ append_assoc p.reported (failed os) (failed more)
        ∙ ap (λ x. p.reported ++ x) (sym (failed-append os more));
    active =
        k.active
        ∙ ap (λ b. succeeded b more) h.active
        ∙ sym (succeeded-append p.status.active os more);
    kept = rw (ended-append os more) (
        subst (λ x. Perm x (p.msgc ++ posted p.posts))
          (sym (append_assoc (ended os) (ended more) (r.msgc ++ posted r.posts)))
          (Perm.trans (Perm.append_left (ended os) k.kept) h.kept));
  }

  serve-Handles :
      (marshal : Message → Option Text) (same : U → U → Bool) (p : Pipeline U) (t : Turn)
      → ((m : Message) → marshal m ≢ none)
      → IsAsked t
      → IsRunning p
      → Returns (serve marshal same p t) (Handles p)
  unfolding serve
  serve-Handles marshal same p begin fits asked run =
      Returns-bind (receive marshal p p.msgc) _ _ _ (receive-Handles marshal p p.msgc fits run refl)
        λ q h. h
  serve-Handles marshal same p (finish i no_request heard now) fits asked run = absurd asked
  serve-Handles marshal same p (finish i failed_trip heard now) fits asked run =
      finish_post-Handles same p i failed_trip heard now run λ e. ground (arith, e)
  serve-Handles marshal same p (finish i failed_body heard now) fits asked run =
      finish_post-Handles same p i failed_body heard now run λ e. ground (arith, e)
  serve-Handles marshal same p (finish i (answered c b) heard now) fits asked run =
      finish_post-Handles same p i (answered c b) heard now run λ e. ground (arith, e)

  -- If messages can be marshalled, requests made, and one of the URLs is picked, the handlers do not panic,
  -- however they take turns. Then the messages whose posts have ended, those in the channel and those being
  -- posted, at most four, are together the messages that were in the channel or being posted, each as
  -- often; the destinations of the posts that failed are reported, in order, and
  -- the peer is active if the last post succeeded; and the picked URL is one of the same URLs.
  pub handle-Handles :
      (marshal : Message → Option Text) (same : U → U → Bool) (p : Pipeline U) (ts : List Turn)
      → ((m : Message) → marshal m ≢ none)
      → All IsAsked ts
      → IsRunning p
      → Returns (handle marshal same p ts) (Handles p)
  unfolding handle
  handle-Handles marshal same p [] fits asked run = rest-Handles p run
  handle-Handles marshal same p (t ∷ ts) fits asked run =
      Returns-bind (serve marshal same p t) _ _ _ (serve-Handles marshal same p t fits asked.0 run)
        λ s h.
          Returns-bind (handle marshal same s.0 ts) _ _ _
            (handle-Handles marshal same s.0 ts fits asked.1 h.runs)
            λ r k. Handles-append p s.0 r.0 s.1 r.1 h k
