-- ===== src/Engine/Logic/Action.antt =====
-- pkg/direktiv/state-logic-action.go: the action state.
pub mod Results
use direktiv.Base.{
  ℕ, suc, ◌+◌, String, str_eq, is_empty, not, ◌&&◌, List, [], ◌∷◌, Option, none, some, new,
  if◌then◌else◌,
}
use direktiv.Model.Value.{ℤ, Value}
use direktiv.Model.Common.{ActionDefinition, FunctionDefinition}
use direktiv.Model.State.Action.{ActionState}
use direktiv.Model.Workflow.{Workflow, get_function}
use direktiv.Engine.Errors.{internal, other}
use direktiv.Engine.Services.{Services, seconds}
use direktiv.Engine.Instance.{save, store_data}
use direktiv.Engine.World.{
  M, Savedata, ActionSavedata, Wakedata, no_wake, result, retry_action, ActionResultPayload,
  requested_async, done, fail, emit, this, or_crash, ◌>>=◌, ◌>>◌,
}
use direktiv.Engine.Run.{StateLogic, StateTransition, StateChild}
use direktiv.Engine.Retry.{Retry, again, give_up, preprocess_retry, schedule_wakeup}
use direktiv.Engine.Action.{
  deadline_from_string, next_id, generate_action_input, or_internal, do_action_request,
  subflow_invoke,
}
use direktiv.Engine.Logic.Noop.{go_to, refuse_savedata}
use direktiv.Engine.Logic.Branches.{output_value, action_error}

-- `Timeout` that is not empty and cannot be read fails the state once its input is there.
unfoldable pub check_timeout : Services → String → M (Unit {0})
check_timeout services s = if is_empty s then done tt else (elim (services.duration s) [
  | none ↦ fail (other (new "cannot parse the timeout"))
  | some d ↦ done tt
])

abbrev pub saved : String → ℕ → Savedata
saved id attempt = Savedata.action (record { op = "do"; id = id; attempts = attempt })

-- The goroutine of an asynchronous action: the namespace and the instance are taken out of the
-- request before it is sent, and an error is ignored.
unfoldable pub request_async : Services → String → FunctionDefinition → Value → M (Unit {0})
request_async services id fn input = do
  i ← this
  elim (services.service_hash "" i.wf.id fn.id) [
    | none ↦ done tt
    | some hash ↦ emit (requested_async id hash input)
  ]

unfoldable pub do_function :
    Services → Workflow → ActionState → ActionDefinition → ℕ → Value → M (Option StateTransition)
do_function services wf o a attempt input = do
  i ← this
  id ← next_id services
  save (saved id attempt)
  fn ← or_internal (get_function wf a.function)
  if o.async
      then request_async services id fn input >> go_to o.transform o.transition
      else do_action_request services i.namespace id fn input >> done none

unfoldable pub do_subflow :
    Services → ActionState → ActionDefinition → ℕ → Value → M (Option StateTransition)
do_subflow services o a attempt input = do
  id ← subflow_invoke services o.id a.workflow input
  if o.async then go_to o.transform o.transition else save (saved id attempt) >> done none

-- `do`. A nil action panics.
unfoldable pub start_action : Services → Workflow → ActionState → ℕ → M (Option StateTransition)
start_action services wf o attempt = do
  i ← this
  a ← or_crash o.action
  input ← generate_action_input services i.state_data a
  check_timeout services o.timeout
  if is_empty a.function
      then do_subflow services o a attempt input
      else do_function services wf o a attempt input

unfoldable pub as_action : Savedata → M ActionSavedata
as_action (Savedata.action sd) = done sd
as_action _ = fail (internal (new "cannot decode the savedata"))

unfoldable pub check_id :
    Services → ActionDefinition → ActionSavedata → ActionResultPayload → M (Unit {0})
check_id services a sd p =
    if not (is_empty a.function) && not (services.is_ksuid sd.id)
    then fail (internal (new "bad action ID"))
    else (if str_eq p.action_id sd.id then done tt else fail (internal (new "incorrect action ID")))

abbrev pub again_data : ActionSavedata → ActionSavedata
again_data sd = record { op = "retry"; id = ""; attempts = suc sd.attempts }

-- `scheduleRetry` of the state.
unfoldable pub schedule_retry : ActionState → ActionSavedata → ℤ → M (Option StateTransition)
schedule_retry o sd d = do
  save (Savedata.action (again_data sd))
  schedule_wakeup o.id d (retry_action (again_data sd))
  done none

abbrev pub retry_or_fail : ActionState → ActionSavedata → Retry → M (Option StateTransition)
retry_or_fail o sd (again d) = schedule_retry o sd d
retry_or_fail o sd (give_up e) = fail e

unfoldable pub after_action :
    Services
    → ActionState
    → ActionDefinition
    → ActionSavedata
    → ActionResultPayload
    → M (Option StateTransition)
after_action services o a sd p =
    if not (is_empty p.error_code)
    then retry_or_fail o sd
        (preprocess_retry services a.retries sd.attempts (action_error services p))
    else (if not (is_empty p.error_message) then fail (internal (new p.error_message)) else (do
      store_data "return" (output_value services p.output)
      go_to o.transform o.transition))

unfoldable pub on_results :
    Services → ActionState → Savedata → ActionResultPayload → M (Option StateTransition)
on_results services o savedata p = do
  sd ← as_action savedata
  a ← or_crash o.action
  check_id services a sd p
  after_action services o a sd p

unfoldable pub run :
    Services → Workflow → ActionState → Savedata → Wakedata → M (Option StateTransition)
run services wf o savedata no_wake = refuse_savedata savedata >> start_action services wf o 0
run services wf o savedata (retry_action sd) =
    if str_eq sd.op "retry"
    then start_action services wf o sd.attempts
    else fail (internal (new "cannot decode the wakedata"))
run services wf o savedata (result p) = on_results services o savedata p
run services wf o savedata _ = fail (internal (new "cannot decode the wakedata"))

abbrev pub child_of : Services → ActionDefinition → ActionSavedata → List StateChild
child_of services a sd =
    if is_empty a.function
    then record { id = sd.id; type = "subflow" } ∷ []
    else (if services.is_ksuid sd.id then record { id = sd.id; type = "isolate" } ∷ [] else [])

-- A nil action would panic; validation refuses it.
unfoldable pub living_children : Services → ActionState → Savedata → List StateChild
living_children services o (Savedata.action sd) = elim o.action [
  | none ↦ []
  | some a ↦ child_of services a sd
]
living_children services o _ = []

unfoldable pub logic : Services → Workflow → ActionState → StateLogic
logic services wf o = record {
  id = o.id;
  deadline = if o.async then services.now + seconds 5 else deadline_from_string services o.timeout;
  error_catchers = o.catch;
  log_jq = o.log;
  run = run services wf o;
  living_children = living_children services o;
}
