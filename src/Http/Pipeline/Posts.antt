-- ===== src/Http/Pipeline/Posts.antt =====
-- raft/http/pipeline.go: what a post changes.
use yyckv.Base.{
  ℕ, zero, suc, ◌+◌, ◌%◌, ◌<◌, ◌≡◌, ◌≢◌, inl, inr, refl, ap, Bool, true, false, some, List, [], ◌∷◌,
  ◌++◌, subst, length, get_elem?, get_elem?_below, if◌then◌else◌, arith, Bool-cases, Option-cases,
  Returns, Returns-bind,
}
use mathlib.Core.List.{Perm}
use mathlib.Core.Option.{some-injective}
use mathlib.Core.List.Perm
use native.Mathlib.Nat.{mod-lt}
use yyckv.Pb.{Message}
use yyckv.Http.{UrlPicker, unreachable}
use yyckv.Http.Pipeline.{
  PeerStatus, activate, deactivate, Reply, no_request, failed_trip, failed_body, answered,
  PostError, check_post_response, Post, Pipeline, fail, is_member_removed, trip_error, body_error,
  report_critical_error, end_post, without,
}

pub activate-active : (now : ℕ) (s : PeerStatus) → (activate now s).active ≡ true
unfolding activate
activate-active now s = ground arith

pub deactivate-active : (s : PeerStatus) → (deactivate s).active ≡ false
unfolding deactivate
deactivate-active s = ground arith

module _ {U : Type 0} where
  picked_below :
      (p : UrlPicker U) → p.picked < length p.urls → (p.picked + 1) % length p.urls < length p.urls
  picked_below p h = mod-lt (p.picked + 1) (omega arith)

  -- Only the picked URL may change.
  abbrev pub IsMoved : UrlPicker U → UrlPicker U → Type 0
  IsMoved p q = (q.picked < length q.urls) × (q.urls ≡ p.urls)

  unreachable-IsMoved :
      (same : U → U → Bool) (p : UrlPicker U) (u : U)
      → p.picked < length p.urls
      → Returns (unreachable same p u) (IsMoved p)
  unfolding unreachable
  unreachable-IsMoved same p u low =
      let (now, e) = get_elem?_below p.urls p.picked low in
      rw (Returns, e)
        (elim (Bool-cases (same u now)) [
          | inl this ↦ rw (Returns, this) (picked_below p low, refl)
          | inr other ↦ rw (Returns, other) (low, refl)
        ])

  pub without-length :
      (i : ℕ) (fs : List (Post U)) (f : Post U)
      → get_elem? fs i ≡ some f
      → suc (length (without i fs)) ≡ length fs
  without-length i [] f h = absurd (ground (arith, h))
  without-length zero (g ∷ fs) f h = refl
  without-length (suc i) (g ∷ fs) f h = ap suc (without-length i fs f h)

  -- The messages of the posts.
  abbrev pub posted : List (Post U) → List Message
  posted [] = []
  posted (f ∷ fs) = f.m ∷ posted fs

  pub posted-append : (fs gs : List (Post U)) → posted (fs ++ gs) ≡ posted fs ++ posted gs
  posted-append [] gs = refl
  posted-append (f ∷ fs) gs = ap (◌∷◌ f.m) (posted-append fs gs)

  pub posted-without :
      (i : ℕ) (fs : List (Post U)) (f : Post U)
      → get_elem? fs i ≡ some f
      → Perm (f.m ∷ posted (without i fs)) (posted fs)
  posted-without i [] f h = absurd (ground (arith, h))
  posted-without zero (g ∷ fs) f h =
      subst (λ x. Perm (x.m ∷ posted fs) (g.m ∷ posted fs)) (some-injective g f h)
        (Perm.refl (g.m ∷ posted fs))
  posted-without (suc i) (g ∷ fs) f h =
      Perm.trans (Perm.swap g.m f.m (posted (without i fs)))
        (Perm.cons g.m (posted-without i fs f h))

  -- `post` changes nothing but the picker and the errors that it reports.
  abbrev pub IsPosted : Pipeline U → Pipeline U → Type 0
  IsPosted p q =
      IsMoved p.picker q.picker
      × (q.status ≡ p.status)
      × (q.msgc ≡ p.msgc)
      × (q.posts ≡ p.posts)
      × (q.reported ≡ p.reported)

  report_critical_error-IsPosted :
      (p q : Pipeline U) (heard : Bool) (e : PostError)
      → IsPosted p q
      → IsPosted p (if is_member_removed e then report_critical_error heard e q else q)
  unfolding report_critical_error
  report_critical_error-IsPosted p q true e h = elim (Bool-cases (is_member_removed e)) [
    | inl r ↦ rw r h
    | inr r ↦ rw r h
  ]
  report_critical_error-IsPosted p q false e h = elim (Bool-cases (is_member_removed e)) [
    | inl r ↦ rw r h
    | inr r ↦ rw r h
  ]

  fail-IsPosted :
      (same : U → U → Bool) (p : Pipeline U) (u : U) (e : PostError)
      → p.picker.picked < length p.picker.urls
      → Returns (fail same p u e) λ s. IsPosted p s.0
  fail-IsPosted same p u e low =
      Returns-bind (unreachable same p.picker u) _ _ _ (unreachable-IsMoved same p.picker u low)
        λ picker h. (h, refl, refl, refl, refl)

  pub end_post-IsPosted :
      (same : U → U → Bool) (p : Pipeline U) (u : U) (reply : Reply) (heard : Bool)
      → p.picker.picked < length p.picker.urls
      → reply ≢ no_request
      → Returns (end_post same p u reply heard) λ s. IsPosted p s.0
  unfolding end_post
  end_post-IsPosted same p u no_request heard low asked = absurd (asked refl)
  end_post-IsPosted same p u failed_trip heard low asked = fail-IsPosted same p u trip_error low
  end_post-IsPosted same p u failed_body heard low asked = fail-IsPosted same p u body_error low
  end_post-IsPosted same p u (answered status body) heard low asked =
      elim (Option-cases (check_post_response status body)) [
        | inl e ↦ rw (end_post, Returns, e) ((low, refl), refl, refl, refl, refl)
        | inr (e, r) ↦
            rw (end_post, r)
              (Returns-bind (fail same p u e) _ _ _ (fail-IsPosted same p u e low)
                λ s h. report_critical_error-IsPosted p s.0 heard e h)
      ]
