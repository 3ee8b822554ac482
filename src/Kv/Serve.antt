-- ===== src/Kv/Serve.antt =====
-- kv/raftNode.go: a node serves batches that leave nothing out, and reaches the end of them.
use yyckv.Base.{
  Text, ℕ, zero, suc, ◌+◌, ◌-◌, ◌≤◌, ◌<◌, ◌≡◌, ◌≢◌, refl, ap, sym, ◌∙◌, subst, Bool, true, List, [],
  ◌∷◌, ◌++◌, length, length-take, length-drop, take, drop, All, arith, ok, ◌>>=◌, max, Option,
}
use yyckv.Base.Word.{modulus}
use yyckv.Pb.{Entry, EntryType, entry_normal, entry_conf_change, entry_conf_change_v2, ConfChange}
use yyckv.Kv.{
  RaftNode, publish_entry, publish_all, publish_entries, serve_committed, serve_channels,
  entries_to_apply, last_of,
}
use yyckv.Kv.Publish.{IsRun, content, contents, entries_to_apply_lem}
use yyckv.Kv.Replay.{drop_none, rest_of, IsRun-after, IsRun-last_of}

-- The log changes no configuration.
abbrev pub IsPlain : List Entry → Type 0
IsPlain es = All (λ e. e.typ ≢ entry_conf_change) es

publish_entry_plain :
    (unmarshal : Option Text → ConfChange) (r : RaftNode) (t : EntryType) (payload : Option Text)
    → t ≢ entry_conf_change
    → publish_entry unmarshal r t payload ≡ ok (r, content t payload, true)
unfolding publish_entry
publish_entry_plain unmarshal r entry_normal payload plain = refl
publish_entry_plain unmarshal r entry_conf_change payload plain = absurd (plain refl)
publish_entry_plain unmarshal r entry_conf_change_v2 payload plain = refl

publish_all_plain :
    (unmarshal : Option Text → ConfChange) (r : RaftNode) (es : List Entry)
    → IsPlain es
    → publish_all unmarshal r es ≡ ok (r, contents es, true)
unfolding publish_all
publish_all_plain unmarshal r [] plain = refl
publish_all_plain unmarshal r (e ∷ es) plain =
    rw
      (
        publish_entry_plain unmarshal r e.typ e.payload plain.0,
        publish_all_plain unmarshal r es plain.1,
      )
      refl

publish_entries_plain :
    (unmarshal : Option Text → ConfChange) (r : RaftNode) (es : List Entry)
    → IsPlain es
    → publish_entries unmarshal r true es
      ≡ ok (record r { applied_index = last_of r.applied_index es }, contents es, true)
unfolding publish_entries
publish_entries_plain unmarshal r [] plain = refl
publish_entries_plain unmarshal r (e ∷ es) plain =
    rw (publish_all_plain unmarshal r (e ∷ es) plain) (ground arith)

IsPlain-window : (k a : ℕ) (log : List Entry) → IsPlain log → IsPlain (take k (drop a log))
IsPlain-window zero a log plain = tt
IsPlain-window (suc k) zero [] plain = tt
IsPlain-window (suc k) zero (e ∷ es) plain = (plain.0, IsPlain-window k zero es plain.1)
IsPlain-window (suc k) (suc a) [] plain = tt
IsPlain-window (suc k) (suc a) (e ∷ es) plain = IsPlain-window (suc k) a es plain.1

applies_rest :
    (log : List Entry) (lo hi a : ℕ)
    → IsRun 0 log
    → length log + 1 < modulus
    → a ≤ length log
    → lo ≤ a
    → hi ≤ length log
    → entries_to_apply a (take (hi - lo) (drop lo log)) ≡ ok (take (hi - a) (drop a log))
applies_rest log lo hi a run fits low on_time high = of_batch (take (hi - lo) (drop lo log)) refl
  where
    of_batch :
        (ents : List Entry)
        → ents ≡ take (hi - lo) (drop lo log)
        → entries_to_apply a ents ≡ ok (take (hi - a) (drop a log))
    of_batch [] e =
        unfold entries_to_apply in
        ap ok (sym (drop_none (a - lo)) ∙ ap (drop (a - lo)) e ∙ rest_of log lo hi a on_time)
    of_batch (x ∷ xs) e =
        let batch : IsRun lo (x ∷ xs) =
          subst (IsRun lo) (sym e) (IsRun-after lo (hi - lo) log run) in
        let size : length (x ∷ xs) ≤ hi - lo =
          omega (arith, ap length e, length-take (hi - lo) (drop lo log)) in
        (entries_to_apply_lem lo a x xs batch (omega (arith, size)) (omega arith)).0 on_time
        ∙ ap ok (ap (drop (a - lo)) e ∙ rest_of log lo hi a on_time)

-- The batches that go from one index of the log to another, each of which the store takes.
abbrev pub batches_of : List Entry → List (ℕ × ℕ) → List (Bool × List Entry)
batches_of log [] = []
batches_of log ((lo, hi) ∷ more) = (true, take (hi - lo) (drop lo log)) ∷ batches_of log more

-- No batch begins after what is applied by then.
abbrev pub IsTimely : List Entry → ℕ → List (ℕ × ℕ) → Type 0
IsTimely log a [] = Unit
IsTimely log a ((lo, hi) ∷ more) = (lo ≤ a) × (hi ≤ length log) × IsTimely log (max a hi) more

abbrev pub reached : ℕ → List (ℕ × ℕ) → ℕ
reached a [] = a
reached a ((lo, hi) ∷ more) = reached (max a hi) more

serve_committed_plain :
    (unmarshal : Option Text → ConfChange) (log : List Entry) (r : RaftNode) (lo hi : ℕ)
    → IsRun 0 log
    → length log + 1 < modulus
    → IsPlain log
    → r.applied_index ≤ length log
    → lo ≤ r.applied_index
    → hi ≤ length log
    → (published : List Text) × (serve_committed unmarshal r true (take (hi - lo) (drop lo log))
        ≡ ok (record r { applied_index = max r.applied_index hi }, published, true))
unfolding serve_committed
serve_committed_plain unmarshal log r lo hi run fits plain low on_time high =
    let a = r.applied_index in
    let es = take (hi - a) (drop a log) in
    let size : a + length es ≡ max a hi =
      omega (arith, length-take (hi - a) (drop a log), length-drop a log) in
    let last : last_of a es ≡ max a hi =
      IsRun-last_of a es (IsRun-after a (hi - a) log run) ∙ size in
    (
      contents es,
      ap (λ m. m >>= publish_entries unmarshal r true)
            (applies_rest log lo hi a run fits low on_time high)
          ∙ publish_entries_plain unmarshal r es (IsPlain-window (hi - a) a log plain)
          ∙ ap (λ i. ok (record r { applied_index = i }, contents es, true)) last,
    )

-- If a log changes no configuration, no batch of it begins after what is applied by then, and the store takes
-- every commit, then the node serves all the batches, and has applied the log up to the highest index of one.
pub serve_channels-reached :
    (unmarshal : Option Text → ConfChange) (log : List Entry) (r : RaftNode) (spans : List (ℕ × ℕ))
    → IsRun 0 log
    → length log + 1 < modulus
    → IsPlain log
    → r.applied_index ≤ length log
    → IsTimely log r.applied_index spans
    → (published : List Text) × (serve_channels unmarshal r (batches_of log spans)
        ≡ ok (record r { applied_index = reached r.applied_index spans }, published, true))
unfolding serve_channels
serve_channels-reached unmarshal log r [] run fits plain low timely = ([], refl)
serve_channels-reached unmarshal log r ((lo, hi) ∷ more) run fits plain low
      (on_time, high, timely) =
    let (first, e) = serve_committed_plain unmarshal log r lo hi run fits plain low on_time high in
    let next = record r { applied_index = max r.applied_index hi } in
    let (rest, k) =
      serve_channels-reached unmarshal log next more run fits plain (omega arith) timely in
    (first ++ rest, rw (e, k) refl)
