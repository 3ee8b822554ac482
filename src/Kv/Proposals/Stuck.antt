-- ===== src/Kv/Proposals/Stuck.antt =====
-- kv/raftNode.go: what becomes of the data that clients propose.
use yyckv.Base.{
  Text, ℕ, ◌≡◌, ◌≤◌, refl, ap, true, Option, some, List, ◌∷◌, length, All, inl, inr, arith, Returns,
}
use yyckv.Node.Callers.{Turn, propose, proposed}
use yyckv.Node.Callers.Answers.{IsOpen, propose_lem, step_with_wait_option_lem}
use yyckv.Kv.Proposals.{Input, proposed_data, stuck, serve_inputs}

propose-sent :
    (fresh : ℕ) (payload : Option Text) (ts : List Turn)
    → length (propose fresh payload ts).sent ≤ 1
unfolding propose
propose-sent fresh payload ts =
    elim (step_with_wait_option_lem fresh (proposed payload) true ts).0 [
      | inl e ↦ let n = ap length e in omega (arith, n)
      | inr e ↦ let n = ap length e in omega (arith, n)
    ]

-- While the node runs, the first data that a client proposes is the last: its call does not return, whether
-- the loop of the node takes the proposal or not, so nothing that clients send later is served, and the
-- loop receives no more than one proposal.
pub serve_inputs-stuck :
    (fresh : ℕ) (d : Text) (ts : List Turn) (more : List (Input × List Turn))
    → All IsOpen ts
    → Returns
        (serve_inputs fresh ((proposed_data d, ts) ∷ more))
        λ s. (s.1 ≡ stuck) × (length s.0 ≤ 1)
unfolding serve_inputs
serve_inputs-stuck fresh d ts more open_turns =
    let blocked = (propose_lem fresh (some d) ts).1 open_turns in
    rw (serve_inputs, Returns, blocked) (refl, propose-sent fresh (some d) ts)
