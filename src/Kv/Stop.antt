-- ===== src/Kv/Stop.antt =====
-- kv/raftNode.go: how a node ends. A channel is closed once; to close it again panics. The transport's `Stop`
-- is still to be written, and the HTTP server has ended when `httpdonec` is closed.
use yyckv.Base.{Bool, true, List, [], ◌∷◌, ◌++◌, if◌then◌else◌, Fallible, ok, panic, raised, ◌>>=◌}

pub record Channels (E : Type 0) : Type 0 where
  pub http_stopped : Bool
  pub commits_closed : Bool
  pub errors : List E
  pub errors_closed : Bool
  pub node_stopped : Bool

abbrev close_once : Bool → Fallible Bool
close_once closed = if closed then panic raised else ok true

module _ {E : Type 0} where
  unfoldable pub stop_http : Channels E → Fallible (Channels E)
  stop_http c = close_once c.http_stopped >>= λ b. ok (record c { http_stopped = b })

  unfoldable pub write_error : Channels E → E → Fallible (Channels E)
  unfolding stop_http
  write_error c e = stop_http c >>= λ c'.
      if c'.errors_closed
      then panic raised
      else ok
          (record c' { errors = c'.errors ++ (e ∷ []); errors_closed = true; node_stopped = true })

  unfoldable pub stop : Channels E → Fallible (Channels E)
  unfolding stop_http
  stop c = stop_http c >>= λ c'. close_once c'.commits_closed >>= λ commits.
      close_once c'.errors_closed >>= λ errs.
      ok (record c' { commits_closed = commits; errors_closed = errs; node_stopped = true })
