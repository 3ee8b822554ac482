-- ===== src/Raft/Setup/Valid.antt =====
-- raft/core/raft.go: which configurations `validate` accepts.
use yyckv.Base.{
  ℕ, zero, suc, ◌≤◌, ◌<◌, ◌≡◌, ◌≢◌, ◌⊎◌, ◌∙◌, ap, sym, refl, ◌↔◌, Option, false, none, some, arith,
  not, ◌&&◌, ◌==◌, ltb,
}
use yyckv.Log.Ranges.{no_limit}
use yyckv.Storage.{Storage}
use yyckv.Util.{local_append_thread, local_apply_thread, is_local_msg_target}
use yyckv.Raft.Setup.{
  ℤ, pos, negsuc, Config, validate, with_defaults, is_missing, not_positive, at_most,
}

-- A configuration that the rest of the program can run. A bound of zero on the bytes in flight is none.
pub record IsRunnable (c : Config) : Type 0 where
  pub some_id : 0 < c.id
  pub not_append : c.id ≢ local_append_thread
  pub not_apply : c.id ≢ local_apply_thread
  pub ticks :
      (beat elect : ℕ) × (c.heartbeat_tick ≡ pos beat)
      × (c.election_tick ≡ pos elect)
      × (0 < beat)
      × (beat < elect)
  pub stores : (s : Storage) × (c.storage ≡ some s)
  pub sends : (n : ℕ) × (c.max_inflight_msgs ≡ pos n) × (0 < n)
  pub fits : (c.max_inflight_bytes ≡ 0) ⊎ (c.max_size_per_msg ≤ c.max_inflight_bytes)

-- The value, or the default in place of zero.
abbrev pub or_default : ℕ → ℕ → ℕ
or_default zero d = d
or_default (suc n) d = suc n

-- The two bounds in bytes are unlimited by default, and the committed entries of one `Ready` are bounded
-- like a message.
abbrev pub defaulted : Config → Config
defaulted c = record c {
  max_uncommitted_entries_size = or_default c.max_uncommitted_entries_size no_limit;
  max_committed_size_per_ready = or_default c.max_committed_size_per_ready c.max_size_per_msg;
  max_inflight_bytes = or_default c.max_inflight_bytes no_limit;
}

with_defaults_lem : (c : Config) → with_defaults c ≡ defaulted c
unfolding with_defaults
with_defaults_lem c = ground arith

-- What `validate` tests.
record Passes (c : Config) : Type 0 where
  some_id : 0 < c.id
  not_append : c.id ≢ local_append_thread
  not_apply : c.id ≢ local_apply_thread
  beats : not_positive c.heartbeat_tick ≡ false
  elects : at_most c.election_tick c.heartbeat_tick ≡ false
  stores : is_missing c.storage ≡ false
  sends : not_positive c.max_inflight_msgs ≡ false
  fits : not (c.max_inflight_bytes == 0) && ltb c.max_inflight_bytes c.max_size_per_msg ≡ false

accepted : (c : Config) → Passes c → validate c ≡ some (with_defaults c)
unfolding validate is_local_msg_target
accepted c h = ground (arith, h)

passes : (c c' : Config) → validate c ≡ some c' → Passes c × (c' ≡ with_defaults c)
unfolding validate is_local_msg_target
passes c c' h = ground arith

positive : (n : ℤ) → not_positive n ≡ false → (k : ℕ) × (n ≡ pos k) × (0 < k)
positive (pos n) h = (n, refl, ground (arith, h))
positive (negsuc n) h = absurd (ground (arith, h))

above :
    (beat elect : ℤ)
    → not_positive beat ≡ false
    → at_most elect beat ≡ false
    → (b e : ℕ) × (beat ≡ pos b) × (elect ≡ pos e) × (0 < b) × (b < e)
above (pos b) (pos e) h k = (b, e, refl, refl, ground (arith, h), ground (arith, k))
above (pos b) (negsuc e) h k = absurd (ground (arith, k))
above (negsuc b) e h k = absurd (ground (arith, h))

present : (o : Option Storage) → is_missing o ≡ false → (s : Storage) × (o ≡ some s)
present none h = absurd (ground (arith, h))
present (some s) h = (s, refl)

Passes-IsRunnable : (c : Config) → Passes c → IsRunnable c
Passes-IsRunnable c h = record {
  some_id = h.some_id;
  not_append = h.not_append;
  not_apply = h.not_apply;
  ticks = above c.heartbeat_tick c.election_tick h.beats h.elects;
  stores = present c.storage h.stores;
  sends = positive c.max_inflight_msgs h.sends;
  fits = ground (arith, h.fits);
}

IsRunnable-Passes : (c : Config) → IsRunnable c → Passes c
IsRunnable-Passes c h =
    let (beat, elect, b, e, some_beat, less) = h.ticks in
    let (n, sent, some_sent) = h.sends in
    record {
      some_id = h.some_id;
      not_append = h.not_append;
      not_apply = h.not_apply;
      beats = rw b (ground (arith, some_beat));
      elects = rw (b, e) (ground (arith, less));
      stores = rw h.stores.1 refl;
      sends = rw sent (ground (arith, some_sent));
      fits = ground (arith, h.fits);
    }

-- `validate` accepts the configurations of the following kind and no other: the identity is neither zero
-- nor that of a local thread, the heartbeat tick is positive and below the election tick, there is a
-- storage, the number of messages in flight is positive, and the bytes in flight, unless they are zero,
-- are no fewer than the largest size of a message. It returns them with the defaults in place of zeros:
-- no limit on the uncommitted entries and on the bytes in flight, and the largest size of a message as the
-- limit on the committed entries of one `Ready`.
pub validate_lem : (c c' : Config) → (validate c ≡ some c') ↔ (IsRunnable c × (c' ≡ defaulted c))
validate_lem c c' = (
  λ h. let (p, e) = passes c c' h in (Passes-IsRunnable c p, e ∙ with_defaults_lem c),
  λ h. accepted c (IsRunnable-Passes c h.0) ∙ ap some (with_defaults_lem c ∙ sym h.1),
)
