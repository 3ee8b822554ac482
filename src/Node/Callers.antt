-- ===== src/Node/Callers.antt =====
-- raft/core/node.go: the methods that pass a request to the loop of `run` and wait. A `Turn` is what happens
-- meanwhile; a `select` goes on with the first that is ready for one of its cases, and waits without end if
-- there is none. A channel for a result is a number, and one that is nil is never ready.
use yyckv.Base.{
  ℕ, suc, Bool, true, false, not, Option, none, some, List, [], ◌∷◌, lookup, ltb, ◌==◌, ◌&&◌,
  if◌then◌else◌, Fallible, panic, unimplemented,
}
use yyckv.Pb.{
  Message, MessageType, msg_hup, msg_prop, msg_transfer_leader, msg_unreachable, message,
  ConfChange, ConfState, v1, as_v2,
}
use yyckv.Util.{is_local_msg, is_local_msg_target}
use yyckv.Raft.{RaftError}
use yyckv.Raft.Become.{empty_entry}
use yyckv.Node.{Event, proposal, receipt, conf_change, advanced, status_asked}
use yyckv.Node.Status.{Status}
pub mod Answers

-- `taken`: the loop receives what is offered to it. `stepped`: the step that a proposal made returns. The
-- loop sends a configuration or a status. `cancelled`: the context is done. `stopped`: `done` is closed.
pub data Turn : Type 0 where
  taken : Turn
  stepped : Option RaftError → Turn
  configured : ConfState → Turn
  reported : Status → Turn
  cancelled : Turn
  stopped : Turn

pub data CallError : Type 0 where
  context_error : CallError
  err_stopped : CallError
  raft_error : RaftError → CallError

pub record MsgWithResult : Type 0 where
  pub m : Message
  pub result : Option ℕ

-- The outcome of a `select`, with the turns that are left.
pub data Select : Type 0 where
  waiting context_done node_done : Select
  sent : List Turn → Select

-- To send on a channel of the loop, until `done` is closed, or the context is done if that is watched.
unfoldable pub select_send : Bool → List Turn → Select
select_send watched [] = waiting
select_send watched (taken ∷ ts) = sent ts
select_send watched (cancelled ∷ ts) =
    let rest = select_send watched ts in if watched then context_done else rest
select_send watched (stopped ∷ ts) = node_done
select_send watched (_ ∷ ts) = select_send watched ts

-- What a call has sent to the loop, and what it returns; without a value it waits without end.
pub record Call {ℓ} (A : Type ℓ) : Type ℓ where
  pub sent : List Event
  pub returned : Option A

abbrev call {ℓ} : {A : Type ℓ} → List Event → Option A → Call A
call events a = record { sent = events; returned = a }

-- The values in the channels for results after the loop has served a proposal that it received as `pm`.
abbrev pub answer : MsgWithResult → Option RaftError → List (ℕ × Option RaftError)
answer pm err = elim pm.result [ none ↦ [] | some c ↦ (c, err) ∷ [] ]

abbrev received : Option ℕ → List (ℕ × Option RaftError) → Option (Option RaftError)
received none written = none
received (some c) written = lookup written c

abbrev error_of : Option RaftError → Option CallError
error_of none = none
error_of (some e) = some (raft_error e)

-- The last `select` of `stepWithWaitOption`: the caller waits with `pm`, of which the loop received `given`.
unfoldable pub await_result : MsgWithResult → MsgWithResult → List Turn → Option (Option CallError)
await_result pm given [] = none
await_result pm given (stepped err ∷ ts) = elim (received pm.result (answer given err)) [
  | none ↦ await_result pm given ts
  | some e ↦ some (error_of e)
]
await_result pm given (cancelled ∷ ts) = some (some context_error)
await_result pm given (stopped ∷ ts) = some (some err_stopped)
await_result pm given (_ ∷ ts) = await_result pm given ts

abbrev pub is_msg_prop : MessageType → Bool
is_msg_prop msg_prop = true
is_msg_prop _ = false

-- `fresh` is the channel that `make` returns.
unfoldable pub step_with_wait_option : ℕ → Message → Bool → List Turn → Call (Option CallError)
unfolding await_result
step_with_wait_option fresh m wait ts =
    if not (is_msg_prop m.typ)
    then elim (select_send true ts) [
      | waiting ↦ call [] none
      | context_done ↦ call [] (some (some context_error))
      | node_done ↦ call [] (some (some err_stopped))
      | sent rest ↦ call (receipt m ∷ []) (some none)
    ]
    else let pm : MsgWithResult = record { m = m; result = none } in
      elim (select_send true ts) [
        | waiting ↦ call [] none
        | context_done ↦ call [] (some (some context_error))
        | node_done ↦ call [] (some (some err_stopped))
        | sent rest ↦
            if not wait
            then call (proposal pm.m ∷ []) (some none)
            else call (proposal pm.m ∷ [])
                (await_result (record pm { result = some fresh }) pm rest)
      ]

unfoldable pub step : Message → List Turn → Call (Option CallError)
unfolding step_with_wait_option
step m ts =
    if is_local_msg m.typ && not (is_local_msg_target m.from)
    then call [] (some none)
    else step_with_wait_option 0 m false ts

abbrev pub campaign : List Turn → Call (Option CallError)
campaign ts = step_with_wait_option 0 (message msg_hup 0) false ts

abbrev pub proposed : Option (List ℕ) → Message
proposed payload = record (message msg_prop 0) {
  entries = (record empty_entry { payload = payload }) ∷ [];
}

unfoldable pub propose : ℕ → Option (List ℕ) → List Turn → Call (Option CallError)
unfolding step_with_wait_option
propose fresh payload ts = step_with_wait_option fresh (proposed payload) true ts

abbrev pub propose_conf_change : ConfChange → Fallible (Call (Option CallError))
propose_conf_change cc = panic unimplemented

abbrev pub empty_conf_state : ConfState
empty_conf_state = record {
  voters = [];
  learners = [];
  voters_outgoing = [];
  learners_next = [];
  auto_leave = false;
}

abbrev await_configuration : List Turn → Option ConfState
await_configuration [] = none
await_configuration (configured cs ∷ ts) = some cs
await_configuration (stopped ∷ ts) = some empty_conf_state
await_configuration (_ ∷ ts) = await_configuration ts

-- Once `done` is closed, the second `select` does not wait.
unfoldable pub apply_conf_change : ConfChange → List Turn → Call ConfState
apply_conf_change cc ts = elim (select_send false ts) [
  | sent rest ↦ call (conf_change (as_v2 (v1 cc)) ∷ []) (await_configuration rest)
  | node_done ↦ call [] (some empty_conf_state)
  | _ ↦ call [] none
]

-- A call without a result, that sends an event.
abbrev send_event : Bool → Event → List Turn → Call (Unit {0})
send_event watched e ts = elim (select_send watched ts) [
  | waiting ↦ call [] none
  | sent rest ↦ call (e ∷ []) (some tt)
  | _ ↦ call [] (some tt)
]

abbrev pub advance : List Turn → Call (Unit {0})
advance ts = send_event false advanced ts

abbrev pub transfer_leadership : ℕ → ℕ → List Turn → Call (Unit {0})
transfer_leadership lead transferee ts =
    send_event true (receipt (record (message msg_transfer_leader lead) { from = transferee })) ts

unfoldable pub report_unreachable : ℕ → List Turn → Call (Unit {0})
report_unreachable id ts =
    send_event false (receipt (record (message msg_unreachable 0) { from = id })) ts

abbrev await_status : List Turn → Option Status
await_status [] = none
await_status (reported s ∷ ts) = some s
await_status (_ ∷ ts) = await_status ts

-- The status is `none` if it is the empty one of a node that has been stopped.
unfoldable pub status : List Turn → Call (Option Status)
status ts = elim (select_send false ts) [
  | sent rest ↦
      call (status_asked ∷ []) (elim (await_status rest) [ none ↦ none | some s ↦ some (some s) ])
  | node_done ↦ call [] (some none)
  | _ ↦ call [] none
]

-- The buffer of `tickc`.
abbrev pub tick_buf_size : ℕ
tick_buf_size = 128

-- The ticks that are buffered. A tick is dropped if there is no room, or `done` is closed and its case is
-- the one that is picked, which `gone` says.
unfoldable pub tick : ℕ → Bool → ℕ
tick pending gone = if ltb pending tick_buf_size && not gone then suc pending else pending
