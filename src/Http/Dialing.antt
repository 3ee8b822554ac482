-- ===== src/Http/Dialing.antt =====
-- raft/http: tls.go, timeout_transport.go, and from util.go the round trippers of streams and pipelines. A
-- time is a number, 0 for none; `resolve` tells whether an address resolves.
use yyckv.Base.{
  Text, ℕ, Bool, true, false, not, Option, none, some, [], ◌∷◌, ◌==◌, ◌&&◌, ◌||◌, if◌then◌else◌,
}

pub record TlsInfo : Type 0 where
  pub cert_file : Text
  pub key_file : Text
  pub server_name : Text
  pub local_addr : Text

abbrev is_unset : Text → Bool
is_unset [] = true
is_unset (c ∷ s) = false

abbrev pub empty : TlsInfo → Bool
empty i = is_unset i.cert_file && is_unset i.key_file

-- `none` is the error; the configuration that `baseConfig` returns is nil.
abbrev pub base_config : TlsInfo → Option (Option Text)
base_config i = if is_unset i.key_file || is_unset i.cert_file then none else some none

-- A configuration is the name of the server.
unfoldable pub client_config : TlsInfo → Option (Option Text)
client_config i = if not (empty i) then base_config i else some (some i.server_name)

pub record Dialer : Type 0 where
  pub timeout : ℕ
  pub local_addr : Option Text
  pub read_timeout : ℕ
  pub write_timeout : ℕ

-- `keeps_idle` is the number of idle connections that are kept, `none` if it is negative.
pub record RoundTripper : Type 0 where
  pub keeps_idle : Option ℕ
  pub dial : Option Dialer
  pub dial_context : Option Dialer
  pub tls : Option Text

abbrev plain_dialer : ℕ → Option Text → Dialer
plain_dialer timeout addr = record {
  timeout = timeout;
  local_addr = addr;
  read_timeout = 0;
  write_timeout = 0;
}

unfoldable pub new_transport : (Text → Bool) → TlsInfo → ℕ → Option RoundTripper
unfolding client_config
new_transport resolve info timeout = elim (client_config info) [
  | none ↦ none
  | some cfg ↦
      if is_unset info.local_addr
      then some (record {
        keeps_idle = some 0;
        dial = none;
        dial_context = some (plain_dialer timeout none);
        tls = cfg;
      })
      else if resolve info.local_addr
      then some (record {
        keeps_idle = some 0;
        dial = none;
        dial_context = some (plain_dialer timeout (some info.local_addr));
        tls = cfg;
      })
      else none
]

unfoldable pub new_timeout_transport : (Text → Bool) → TlsInfo → ℕ → ℕ → ℕ → Option RoundTripper
unfolding new_transport
new_timeout_transport resolve info timeout read write = elim (new_transport resolve info timeout) [
  | none ↦ none
  | some tr ↦ some (record tr {
    keeps_idle = if not (read == 0) || not (write == 0) then none else some 1024;
    dial = some (record {
      timeout = timeout;
      local_addr = none;
      read_timeout = read;
      write_timeout = write;
    });
  })
]

abbrev pub new_round_tripper : (Text → Bool) → TlsInfo → ℕ → Option RoundTripper
new_round_tripper resolve info timeout = new_timeout_transport resolve info timeout 0 0

-- `ConnReadTimeout` and `ConnWriteTimeout`, in seconds.
abbrev pub conn_timeout : ℕ
conn_timeout = 5

abbrev pub new_stream_round_tripper : (Text → Bool) → TlsInfo → ℕ → Option RoundTripper
new_stream_round_tripper resolve info timeout =
    new_timeout_transport resolve info timeout conn_timeout conn_timeout
