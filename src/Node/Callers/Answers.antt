-- ===== src/Node/Callers/Answers.antt =====
-- raft/core/node.go: what a caller learns of its message.
use yyckv.Base.{
  ℕ, ◌≡◌, ◌≢◌, ◌⊎◌, inl, inr, refl, subst, Bool, true, false, Option, none, some, List, [], ◌∷◌,
  lookup, All, arith, Bool-cases, if◌then◌else◌,
}
use yyckv.Pb.{Message}
use yyckv.Node.{Event, proposal, receipt}
use yyckv.Node.Callers.{
  Turn, taken, stepped, configured, reported, cancelled, stopped, CallError, context_error,
  err_stopped, MsgWithResult, Select, waiting, context_done, node_done, sent, select_send, Call,
  await_result, is_msg_prop, step_with_wait_option, proposed, propose,
}

-- The context is not done, and the node runs.
abbrev pub IsOpen : Turn → Type 0
IsOpen cancelled = ⊥
IsOpen stopped = ⊥
IsOpen _ = Unit

abbrev pub IsCut : Option (Option CallError) → Type 0
IsCut r = (r ≡ none) ⊎ ((r ≡ some (some context_error)) ⊎ (r ≡ some (some err_stopped)))

module _ (fresh : ℕ) (m : Message) where
  abbrev given : MsgWithResult
  given = record { m = m; result = none }

  abbrev kept : MsgWithResult
  kept = record { m = m; result = some fresh }

  -- The loop received no channel, so nothing that it does ends the wait.
  await_result-IsCut : (ts : List Turn) → IsCut (await_result kept given ts)
  unfolding await_result lookup
  await_result-IsCut [] = inl refl
  await_result-IsCut (taken ∷ ts) = await_result-IsCut ts
  await_result-IsCut (stepped e ∷ ts) = await_result-IsCut ts
  await_result-IsCut (configured cs ∷ ts) = await_result-IsCut ts
  await_result-IsCut (reported s ∷ ts) = await_result-IsCut ts
  await_result-IsCut (cancelled ∷ ts) = inr (inl refl)
  await_result-IsCut (stopped ∷ ts) = inr (inr refl)

  await_result_open : (ts : List Turn) → All IsOpen ts → await_result kept given ts ≡ none
  unfolding await_result lookup
  await_result_open [] h = refl
  await_result_open (taken ∷ ts) h = await_result_open ts h.1
  await_result_open (stepped e ∷ ts) h = await_result_open ts h.1
  await_result_open (configured cs ∷ ts) h = await_result_open ts h.1
  await_result_open (reported s ∷ ts) h = await_result_open ts h.1
  await_result_open (cancelled ∷ ts) h = absurd h.0
  await_result_open (stopped ∷ ts) h = absurd h.0

-- The outcomes of a `select` while the context is not done and the node runs.
abbrev IsOpenSelect : Select → Type 0
IsOpenSelect waiting = Unit
IsOpenSelect context_done = ⊥
IsOpenSelect node_done = ⊥
IsOpenSelect (sent ts) = All IsOpen ts

select_send_open : (ts : List Turn) → All IsOpen ts → IsOpenSelect (select_send true ts)
unfolding select_send
select_send_open [] h = tt
select_send_open (taken ∷ ts) h = h.1
select_send_open (stepped e ∷ ts) h = select_send_open ts h.1
select_send_open (configured cs ∷ ts) h = select_send_open ts h.1
select_send_open (reported s ∷ ts) h = select_send_open ts h.1
select_send_open (cancelled ∷ ts) h = absurd h.0
select_send_open (stopped ∷ ts) h = absurd h.0

Select-cases :
    (s : Select)
    → (s ≡ waiting) ⊎ ((s ≡ context_done) ⊎ ((s ≡ node_done) ⊎ ((ts : List Turn) × (s ≡ sent ts))))
Select-cases waiting = inl refl
Select-cases context_done = inr (inl refl)
Select-cases node_done = inr (inr (inl refl))
Select-cases (sent ts) = inr (inr (inr (ts, refl)))

-- While the context is not done and the node runs, `Propose` does not return, whether the loop takes the
-- proposal or not, and whatever its step returns; and it never returns without an error, nor an error of
-- the step.
pub propose_lem :
    (fresh : ℕ) (payload : Option (List ℕ)) (ts : List Turn)
    → IsCut (propose fresh payload ts).returned
      × (All IsOpen ts → (propose fresh payload ts).returned ≡ none)
unfolding propose step_with_wait_option
propose_lem fresh payload ts = elim (Select-cases (select_send true ts)) [
  | inl e ↦ rw (propose, step_with_wait_option, e) (inl refl, λ h. refl)
  | inr (inl e) ↦
      rw (propose, step_with_wait_option, e)
        (inr (inl refl), λ h. absurd (subst IsOpenSelect e (select_send_open ts h)))
  | inr (inr (inl e)) ↦
      rw (propose, step_with_wait_option, e)
        (inr (inr refl), λ h. absurd (subst IsOpenSelect e (select_send_open ts h)))
  | inr (inr (inr (rest, e))) ↦
      rw (propose, step_with_wait_option, e)
        (
          await_result-IsCut fresh (proposed payload) rest,
          λ h.
              await_result_open fresh (proposed payload) rest
                (subst IsOpenSelect e (select_send_open ts h)),
        )
]

-- The event that the message is for the loop.
abbrev pub event_of : Message → Event
event_of m = if is_msg_prop m.typ then proposal m else receipt m

-- A call that returns without an error has handed the message over, and does not wait for a proposal.
abbrev pub IsHanded : Message → Bool → Call (Option CallError) → Type 0
IsHanded m wait c =
    ((c.sent ≡ []) ⊎ (c.sent ≡ event_of m ∷ []))
    × (c.returned ≡ some none
        → (c.sent ≡ event_of m ∷ []) × (is_msg_prop m.typ ≡ true → wait ≡ false))

unanswered : (r : Option (Option CallError)) → IsCut r → r ≢ some none
unanswered r (inl e) h = ground (arith, e, h)
unanswered r (inr (inl e)) h = ground (arith, e, h)
unanswered r (inr (inr e)) h = ground (arith, e, h)

-- A call that returns without an error has handed the message to the loop, once, and does not wait for the
-- outcome of a proposal; any call hands it over once at most.
pub step_with_wait_option_lem :
    (fresh : ℕ) (m : Message) (wait : Bool) (ts : List Turn)
    → IsHanded m wait (step_with_wait_option fresh m wait ts)
unfolding step_with_wait_option
step_with_wait_option_lem fresh m wait ts = elim (Bool-cases (is_msg_prop m.typ)) [
  | inl prop ↦ elim (Select-cases (select_send true ts)) [
    | inl e ↦ rw (step_with_wait_option, prop, e) (inl refl, λ h. ground (arith, h))
    | inr (inl e) ↦ rw (step_with_wait_option, prop, e) (inl refl, λ h. ground (arith, h))
    | inr (inr (inl e)) ↦ rw (step_with_wait_option, prop, e) (inl refl, λ h. ground (arith, h))
    | inr (inr (inr (rest, e))) ↦ elim (Bool-cases wait) [
      | inl waits ↦
          rw (step_with_wait_option, prop, e, waits)
            (inr refl, λ h. absurd (unanswered _ (await_result-IsCut fresh m rest) h))
      | inr leaves ↦ rw (step_with_wait_option, prop, e, leaves) (inr refl, λ h. (refl, λ _. refl))
    ]
  ]
  | inr other ↦ elim (Select-cases (select_send true ts)) [
    | inl e ↦ rw (step_with_wait_option, other, e) (inl refl, λ h. ground (arith, h))
    | inr (inl e) ↦ rw (step_with_wait_option, other, e) (inl refl, λ h. ground (arith, h))
    | inr (inr (inl e)) ↦ rw (step_with_wait_option, other, e) (inl refl, λ h. ground (arith, h))
    | inr (inr (inr (rest, e))) ↦
        rw (step_with_wait_option, other, e)
          (inr refl, λ h. (refl, λ p. absurd (ground (arith, p, other))))
  ]
]
