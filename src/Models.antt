-- ===== src/Models.antt =====
-- raft/models/urls.go: the URLs of a member. `parse` is `url.Parse`, `split_host_port` tells whether
-- `net.SplitHostPort` succeeds, and `string` is the text of a URL. `sort.Sort` may leave URLs with the
-- same text in any order; the model keeps theirs.
use yyckv.Base.{
  Text, codes, same_text, text_ltb, ℕ, Bool, true, false, not, Option, none, some, List, [], ◌∷◌,
  map, ◌⊎◌, inl, inr, ◌&&◌, ◌||◌, if◌then◌else◌, Fallible, ok, panic, raised,
}
use yyckv.Base.Words.{trim_space, join}
pub mod Valid

pub record Url : Type 0 where
  pub scheme : Text
  pub host : Text
  pub path : Text

pub data UrlError : Type 0 where
  no_urls parse_error : UrlError
  no_host_port has_path bad_scheme : Text → UrlError

abbrev pub is_web : Text → Bool
is_web scheme = same_text scheme (codes "http") || same_text scheme (codes "https")

abbrev pub is_unix : Text → Bool
is_unix scheme = same_text scheme (codes "unix") || same_text scheme (codes "unixs")

abbrev pub is_empty : Text → Bool
is_empty [] = true
is_empty (c ∷ s) = false

module _ (split_host_port : Text → Bool) where
  -- The `switch` on the scheme, for the text `text`.
  unfoldable pub check_url : Text → Url → Option UrlError
  check_url text u =
      if is_web u.scheme
      then (if not (split_host_port u.host)
          then some (no_host_port text)
          else if not (is_empty u.path)
          then some (has_path text)
          else none)
      else if is_unix u.scheme
      then none
      else some (bad_scheme text)

module _ (parse : Text → Option Url) (split_host_port : Text → Bool) where
  -- A round of the loop.
  unfoldable pub read_url : Text → UrlError ⊎ Url
  unfolding check_url
  read_url str =
      let text = trim_space str in
      elim (parse text) [
        | none ↦ inl parse_error
        | some u ↦ elim (check_url split_host_port text u) [ none ↦ inr u | some e ↦ inl e ]
      ]

  unfoldable pub read_urls : List Text → UrlError ⊎ List Url
  unfolding read_url
  read_urls [] = inr []
  read_urls (s ∷ strs) =
      let rest = read_urls strs in
      elim (read_url s) [
        | inl e ↦ inl e
        | inr u ↦ elim rest [ inl e ↦ inl e | inr us ↦ inr (u ∷ us) ]
      ]

module _ (string : Url → Text) where
  abbrev pub string_slice : List Url → List Text
  string_slice us = map string us

  abbrev pub urls_string : List Url → Text
  urls_string us = join 44 (string_slice us)

  -- `Less`.
  abbrev pub less : Url → Url → Bool
  less u v = text_ltb (string u) (string v)

  unfoldable pub insert_url : Url → List Url → List Url
  insert_url u [] = u ∷ []
  insert_url u (v ∷ vs) = let rest = v ∷ insert_url u vs in if less v u then rest else u ∷ v ∷ vs

  unfoldable pub sort_urls : List Url → List Url
  unfolding insert_url
  sort_urls [] = []
  sort_urls (u ∷ us) = insert_url u (sort_urls us)

module _ (parse : Text → Option Url) (split_host_port : Text → Bool) (string : Url → Text) where
  unfoldable pub new_urls : List Text → UrlError ⊎ List Url
  unfolding read_urls sort_urls
  new_urls [] = inl no_urls
  new_urls (s ∷ strs) = elim (read_urls parse split_host_port (s ∷ strs)) [
    | inl e ↦ inl e
    | inr us ↦ inr (sort_urls string us)
  ]

  abbrev pub must_new_urls : List Text → Fallible (List Url)
  must_new_urls strs = elim (new_urls strs) [ inl e ↦ panic raised | inr us ↦ ok us ]
