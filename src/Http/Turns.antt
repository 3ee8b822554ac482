-- ===== src/Http/Turns.antt =====
-- raft/http/urlpick.go: the URLs are tried in turn.
use Prim.Native.Nat.{mod_helper}
use Prim.Native.Nat.mod
use yyckv.Base.{
  ℕ, zero, suc, ◌+◌, ◌-◌, ◌%◌, ◌≡◌, ◌≤◌, ◌<◌, refl, ap, ◌∙◌, Bool, true, length, get_elem?_below,
  arith, Fallible, ok, panic, out_of_range, none, some, subst, index, ◌>>=◌, if◌then◌else◌,
}
use yyckv.Http.{UrlPicker, pick_url, unreachable}

helper_below : (k m n j : ℕ) → n ≤ j → mod_helper k m n j ≡ k + n
helper_below k m zero j h = omega arith
helper_below k m (suc n) zero h = absurd (omega arith)
helper_below k m (suc n) (suc j) h = helper_below (suc k) m n j (omega arith) ∙ omega arith

helper_round : (k m j : ℕ) → mod_helper k m (suc j) j ≡ 0
helper_round k m zero = refl
helper_round k m (suc j) = helper_round (suc k) m j

mod_below : (x n : ℕ) → x < n → x % n ≡ x
mod_below x zero h = absurd (omega arith)
mod_below x (suc m) h = mod.suc x m ∙ helper_below 0 m x m (omega arith) ∙ omega arith

mod_round : (n : ℕ) → 0 < n → n % n ≡ 0
mod_round zero h = absurd (omega arith)
mod_round (suc m) h = mod.suc (suc m) m ∙ helper_round 0 m m

module _ {U : Type 0} (same : U → U → Bool) where
  -- `k` times, the URL that is picked is found unreachable.
  abbrev pub report_picked : ℕ → UrlPicker U → Fallible (UrlPicker U)
  report_picked zero p = ok p
  report_picked (suc k) p = pick_url p >>= λ u. unreachable same p u >>= λ p'. report_picked k p'

  report_once :
      (k : ℕ) (p : UrlPicker U)
      → ((u : U) → same u u ≡ true)
      → p.picked < length p.urls
      → report_picked (suc k) p
        ≡ report_picked k (record p { picked = (p.picked + 1) % length p.urls })
  unfolding pick_url unreachable
  report_once k p equal low =
      let (u, e) = get_elem?_below p.urls p.picked low in
      let next = record p { picked = (p.picked + 1) % length p.urls } in
      let at : index p.urls p.picked ≡ ok u =
        ap (λ o. elim o [ none ↦ panic out_of_range | some a ↦ ok a ]) e in
      ap
        (λ m.
          m >>= λ v. (m >>= λ now. ok (if same v now then next else p)) >>= λ q. report_picked k q)
        at
      ∙ ap (λ b. report_picked k (if b then next else p)) (equal u)

  report_on :
      (k : ℕ) (p : UrlPicker U)
      → ((u : U) → same u u ≡ true)
      → p.picked + k < length p.urls
      → report_picked k p ≡ ok (record p { picked = p.picked + k })
  report_on zero p equal low =
      let e : p.picked ≡ p.picked + 0 = omega arith in ap (λ i. ok (record p { picked = i })) e
  report_on (suc k) p equal low =
      let e : (p.picked + 1) % length p.urls ≡ p.picked + 1 = mod_below _ _ (omega arith) in
      let s : (p.picked + 1) + k ≡ p.picked + suc k = omega arith in
      report_once k p equal (omega arith)
      ∙ ap (λ i. report_picked k (record p { picked = i })) e
      ∙ report_on k (record p { picked = p.picked + 1 }) equal (omega arith)
      ∙ ap (λ i. ok (record p { picked = i })) s

  report_round :
      (k : ℕ) (p : UrlPicker U)
      → ((u : U) → same u u ≡ true)
      → p.picked + suc k ≡ length p.urls
      → report_picked (suc k) p ≡ ok (record p { picked = 0 })
  report_round zero p equal last =
      let full : p.picked + 1 ≡ length p.urls = omega (arith, last) in
      report_once zero p equal (omega (arith, last))
      ∙ ap (λ i. ok (record p { picked = i }))
          (ap (λ i. i % length p.urls) full ∙ mod_round (length p.urls) (omega (arith, last)))
  report_round (suc k) p equal last =
      let e : (p.picked + 1) % length p.urls ≡ p.picked + 1 = mod_below _ _ (omega (arith, last)) in
      report_once (suc k) p equal (omega (arith, last))
      ∙ ap (λ i. report_picked (suc k) (record p { picked = i })) e
      ∙ report_round k (record p { picked = p.picked + 1 }) equal (omega (arith, last))

  -- If a URL is the same as itself, and one of its URLs is picked, a picker that is told over and over that
  -- the picked URL is unreachable picks the URLs that follow one by one, up to the last, and then the first.
  pub unreachable-pick_url :
      (p : UrlPicker U)
      → ((u : U) → same u u ≡ true)
      → p.picked < length p.urls
      → ((k : ℕ)
          → p.picked + k < length p.urls
          → report_picked k p ≡ ok (record p { picked = p.picked + k }))
        × (report_picked (length p.urls - p.picked) p ≡ ok (record p { picked = 0 }))
  unreachable-pick_url p equal low = (
    λ k h. report_on k p equal h,
    let left = length p.urls - p.picked - 1 in
        let all : suc left ≡ length p.urls - p.picked = omega arith in
        subst (λ n. report_picked n p ≡ ok (record p { picked = 0 })) all
          (report_round left p equal (omega arith)),
  )
