-- ===== src/Raft/Replicate/Laws.antt =====
-- raft/core/raft.go: the fuel of the loop of `stepLeader` that sends while there is more to send.
use yyckv.Base.{ℕ, ◌-◌, ◌<◌, ◌≡◌, some, lookup, arith, ok, suc, refl}
use yyckv.Base.Word.{modulus, sub64_exact}
use yyckv.Log.View.{Stable, IsValid, term_lem}
use yyckv.Tracker.Progress.{Progress, state_replicate}
use yyckv.Raft.{Raft}
use yyckv.Raft.Replicate.{maybe_send_append, send_rest}

-- `maybeSendAppend` sends nothing more to a follower in `StateReplicate`, so the loop of `stepLeader`
-- ends after its first round.
pub send_rest-replicate :
    (s : Stable) (r : Raft) (dest : ℕ) (pr : Progress) (fuel : ℕ)
    → IsValid s r.raft_log
    → lookup r.trk.progress dest ≡ some pr
    → pr.state ≡ state_replicate
    → 0 < pr.next
    → pr.next < modulus
    → send_rest (suc fuel) r dest ≡ ok r
unfolding send_rest maybe_send_append
send_rest-replicate s r dest pr fuel v known state pos small =
    rw (known, state, sub64_exact pr.next 1 pos small)
      (rw (term_lem s r.raft_log v (pr.next - 1) (omega arith)) refl)
