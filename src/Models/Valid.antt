-- ===== src/Models/Valid.antt =====
-- raft/models/urls.go: the URLs that `NewURLs` returns.
use mathlib.Core.List.{Perm}
use mathlib.Core.List.Perm
use yyckv.Base.{
  Text, text_ltb, suc, ◌<◌, ◌≡◌, refl, ap, ◌∙◌, subst, Bool, true, false, Option, none, some, List,
  [], ◌∷◌, map, length, All, ◌⊎◌, inl, inr, arith, Bool-cases, Option-cases, Returns,
}
use yyckv.Base.Words.{trim_space}
use yyckv.Http.{new_url_picker, pick_url}
use yyckv.Models.{
  Url, is_web, is_unix, is_empty, check_url, read_url, read_urls, less, insert_url, sort_urls,
  new_urls,
}

text_ltb_asym : (s t : Text) → text_ltb s t ≡ true → text_ltb t s ≡ false
text_ltb_asym [] [] h = refl
text_ltb_asym [] (b ∷ t) h = refl
text_ltb_asym (a ∷ s) [] h = absurd (ground (arith, h))
text_ltb_asym (a ∷ s) (b ∷ t) h = ground (arith, h, text_ltb_asym s t)

module _ (string : Url → Text) where
  -- No URL comes before the one that it follows.
  abbrev pub IsSorted : List Url → Type 0
  IsSorted [] = Unit
  IsSorted (u ∷ []) = Unit
  IsSorted (u ∷ v ∷ us) = (less string v u ≡ false) × IsSorted (v ∷ us)

  insert_url_behind :
      (u v : Url) (us : List Url)
      → less string v u ≡ true
      → insert_url string u (v ∷ us) ≡ v ∷ insert_url string u us
  unfolding insert_url
  insert_url_behind u v us before = rw before refl

  insert_url-IsSorted : (u : Url) (us : List Url) → IsSorted us → IsSorted (insert_url string u us)
  unfolding insert_url
  insert_url-IsSorted u [] h = tt
  insert_url-IsSorted u (v ∷ []) h = elim (Bool-cases (less string v u)) [
    | inl before ↦ rw before (text_ltb_asym (string v) (string u) before, tt)
    | inr after ↦ rw after (after, tt)
  ]
  insert_url-IsSorted u (v ∷ w ∷ us) h = elim (Bool-cases (less string v u)) [
    | inl before ↦ rw before (elim (Bool-cases (less string w u)) [
      | inl further ↦ rw further (
        h.0,
        subst IsSorted (insert_url_behind u w us further) (insert_url-IsSorted u (w ∷ us) h.1),
      )
      | inr here ↦ rw here (text_ltb_asym (string v) (string u) before, (here, h.1))
    ])
    | inr after ↦ rw after (after, h)
  ]

  insert_url-perm : (u : Url) (us : List Url) → Perm (insert_url string u us) (u ∷ us)
  unfolding insert_url
  insert_url-perm u [] = Perm.refl (u ∷ [])
  insert_url-perm u (v ∷ us) = elim (Bool-cases (less string v u)) [
    | inl before ↦ rw before (Perm.trans (Perm.cons v (insert_url-perm u us)) (Perm.swap u v us))
    | inr after ↦ rw after (Perm.refl (u ∷ v ∷ us))
  ]

  sort_urls-IsSorted : (us : List Url) → IsSorted (sort_urls string us)
  unfolding sort_urls
  sort_urls-IsSorted [] = tt
  sort_urls-IsSorted (u ∷ us) = insert_url-IsSorted u (sort_urls string us) (sort_urls-IsSorted us)

  sort_urls-perm : (us : List Url) → Perm (sort_urls string us) us
  unfolding sort_urls
  sort_urls-perm [] = Perm.refl []
  sort_urls-perm (u ∷ us) =
      Perm.trans (insert_url-perm u (sort_urls string us)) (Perm.cons u (sort_urls-perm us))

  insert_url-All :
      (P : Url → Type 0) (u : Url) (us : List Url) → P u → All P us → All P (insert_url string u us)
  unfolding insert_url
  insert_url-All P u [] h all = (h, tt)
  insert_url-All P u (v ∷ us) h all = elim (Bool-cases (less string v u)) [
    | inl before ↦ rw before (all.0, insert_url-All P u us h all.1)
    | inr after ↦ rw after (h, all)
  ]

  sort_urls-All : (P : Url → Type 0) (us : List Url) → All P us → All P (sort_urls string us)
  unfolding sort_urls
  sort_urls-All P [] all = tt
  sort_urls-All P (u ∷ us) all =
      insert_url-All P u (sort_urls string us) all.0 (sort_urls-All P us all.1)

  insert_url-length : (u : Url) (us : List Url) → length (insert_url string u us) ≡ suc (length us)
  unfolding insert_url
  insert_url-length u [] = refl
  insert_url-length u (v ∷ us) = elim (Bool-cases (less string v u)) [
    | inl before ↦ rw before (ap suc (insert_url-length u us))
    | inr after ↦ rw after refl
  ]

  sort_urls-length : (us : List Url) → length (sort_urls string us) ≡ length us
  unfolding sort_urls
  sort_urls-length [] = refl
  sort_urls-length (u ∷ us) =
      insert_url-length u (sort_urls string us) ∙ ap suc (sort_urls-length us)

sum-cases : {A B : Type 0} (s : A ⊎ B) → ((a : A) × (s ≡ inl a)) ⊎ ((b : B) × (s ≡ inr b))
sum-cases (inl a) = inl (a, refl)
sum-cases (inr b) = inr (b, refl)

-- A host and a port without a path, or a socket.
abbrev pub IsAccepted : (Text → Bool) → Url → Type 0
IsAccepted split_host_port u =
    ((is_web u.scheme ≡ true) × (split_host_port u.host ≡ true) × (is_empty u.path ≡ true))
    ⊎ (is_unix u.scheme ≡ true)

check_url-IsAccepted :
    (split_host_port : Text → Bool) (text : Text) (u : Url)
    → check_url split_host_port text u ≡ none
    → IsAccepted split_host_port u
unfolding check_url
check_url-IsAccepted split_host_port text u h = elim (Bool-cases (is_web u.scheme)) [
  | inl web ↦ inl (ground (arith, h, web))
  | inr other ↦ inr (ground (arith, h, other))
]

module _ (parse : Text → Option Url) (split_host_port : Text → Bool) where
  read_url-IsAccepted :
      (s : Text) (u : Url)
      → read_url parse split_host_port s ≡ inr u
      → (parse (trim_space s) ≡ some u) × IsAccepted split_host_port u
  unfolding read_url
  read_url-IsAccepted s u h = elim (Option-cases (parse (trim_space s))) [
    | inl e ↦ absurd (ground (arith, h, e))
    | inr (v, e) ↦ elim (Option-cases (check_url split_host_port (trim_space s) v)) [
      | inl fine ↦
          let same : v ≡ u = ground (arith, h, e, fine) in
          (
            e ∙ ap some same,
            subst (IsAccepted split_host_port) same
                (check_url-IsAccepted split_host_port (trim_space s) v fine),
          )
      | inr (x, bad) ↦ absurd (ground (arith, h, e, bad))
    ]
  ]

  -- The URLs are read one by one, in order.
  read_urls-IsAccepted :
      (strs : List Text) (us : List Url)
      → read_urls parse split_host_port strs ≡ inr us
      → (map (λ s. parse (trim_space s)) strs ≡ map some us)
        × All (IsAccepted split_host_port) us
        × (length us ≡ length strs)
  unfolding read_urls
  read_urls-IsAccepted [] [] h = (refl, tt, refl)
  read_urls-IsAccepted [] (u ∷ us) h = absurd (ground (arith, h))
  read_urls-IsAccepted (s ∷ strs) us h = elim (sum-cases (read_url parse split_host_port s)) [
    | inl (e, bad) ↦ absurd (ground (arith, h, bad))
    | inr (v, good) ↦ elim (sum-cases (read_urls parse split_host_port strs)) [
      | inl (e, bad) ↦ absurd (ground (arith, h, good, bad))
      | inr (vs, rest) ↦
          let same : v ∷ vs ≡ us = ground (arith, h, good, rest) in
          let (first, accepted) = read_url-IsAccepted s v good in
          let (others, all, size) = read_urls-IsAccepted strs vs rest in
          subst
            (λ x.
              (map (λ t. parse (trim_space t)) (s ∷ strs) ≡ map some x)
              × All (IsAccepted split_host_port) x
              × (length x ≡ length (s ∷ strs)))
            same ((λ i. first i ∷ others i), (accepted, all), ap suc size)
    ]
  ]

  picks :
      (us : List Url)
      → 0 < length us
      → All (IsAccepted split_host_port) us
      → Returns (pick_url (new_url_picker us)) (IsAccepted split_host_port)
  unfolding pick_url
  picks [] some_url all = absurd (omega (arith, some_url))
  picks (u ∷ us) some_url all = all.0

  -- The URLs that `NewURLs` returns are those that the texts parse to, in the order of their text; each
  -- has a host and a port and no path, or is a socket; and a picker of them picks one.
  pub new_urls_lem :
      (string : Url → Text) (strs : List Text) (us : List Url)
      → new_urls parse split_host_port string strs ≡ inr us
      → ((vs : List Url) × (map (λ s. parse (trim_space s)) strs ≡ map some vs) × Perm us vs)
        × IsSorted string us
        × All (IsAccepted split_host_port) us
        × Returns (pick_url (new_url_picker us)) (IsAccepted split_host_port)
  unfolding new_urls
  new_urls_lem string [] us h = absurd (ground (arith, h))
  new_urls_lem string (s ∷ strs) us h =
      elim (sum-cases (read_urls parse split_host_port (s ∷ strs))) [
        | inl (e, bad) ↦ absurd (ground (arith, h, bad))
        | inr (vs, good) ↦
            let same : sort_urls string vs ≡ us = ground (arith, h, good) in
            let (parsed, all, size) = read_urls-IsAccepted (s ∷ strs) vs good in
            let sorted = sort_urls-All string (IsAccepted split_host_port) vs all in
            subst
              (λ x.
                ((ws : List Url) × (map (λ t. parse (trim_space t)) (s ∷ strs) ≡ map some ws)
                  × Perm x ws)
                × IsSorted string x
                × All (IsAccepted split_host_port) x
                × Returns (pick_url (new_url_picker x)) (IsAccepted split_host_port))
              same
              (
                (vs, parsed, sort_urls-perm string vs),
                sort_urls-IsSorted string vs,
                sorted,
                picks (sort_urls string vs) (omega (arith, size, sort_urls-length string vs))
                    sorted,
              )
      ]
