-- ===== src/Engine/Action.antt =====
-- How the states start actions: `generateActionInput` (pkg/direktiv/state-logic-action.go),
-- `addSecrets` and `deadlineFromString` (state-logic.go), `getSecretsForInstance` (secrets.go), and
-- `doActionRequest`, `subflowInvoke` (engine.go) and `newWorkflowLogicInstance` (wli.go).
pub mod Depth
use direktiv.Base.{
  ℕ, zero, suc, ◌+◌, ◌==◌, ltb, String, str_eq, is_empty, Bool, true, false, not, List, [], ◌∷◌,
  Option, none, some, new, about, if◌then◌else◌, Result, ok, err, panic, Error,
}
use direktiv.Model.Value.{Value, null, text, object, Fields, end, field}
use direktiv.Model.Common.{ActionDefinition, FunctionDefinition, is_nil, is_empty_list}
use direktiv.Model.StartType
use direktiv.Model.Start.{Start, get_type}
use direktiv.Model.Workflow.{Workflow, get_function}
use direktiv.Engine.Errors.{Failure, catchable, uncatchable, internal, other, new_internal_error}
use direktiv.Engine.Services.{
  Services, seconds, StoredWorkflow, no_workflow, query_failed, stored_workflow, SecretAnswer,
  no_secret, secret_failed, secret_value,
}
use direktiv.Engine.Jq.{jq_one, jq_object}
use direktiv.Engine.Instance.{set_field}
use direktiv.Engine.World.{
  World, Outcome, returned, M, Record, Instance, SubflowCaller, InvokedBy, nobody, caller, garbled,
  Effect, requested, invoked_subflow, ◌>>=◌, ◌>>◌, done, fail, crash, emit, this, the_record, write,
}

-- `deadlineFromString`.
unfoldable pub deadline_from_string : Services → String → ℕ
deadline_from_string services s =
    if is_empty s then (services.now + seconds 900) + seconds 5 else (elim (services.duration s) [
      | none ↦ (services.now + seconds 900) + seconds 5
      | some d ↦ (services.now + d) + seconds 5
    ])

unfoldable pub next_id : Services → M String
next_id services w = (returned (services.fresh w.tick), record w { tick = suc w.tick })

unfoldable pub get_secret : Services → String → M String
get_secret services name = do
  i ← this
  elim (services.secret i.namespace name) [
    | no_secret ↦ fail (uncatchable "direktiv.secrets.notFound" "secret not found")
    | secret_failed e ↦ fail (internal e)
    | secret_value s ↦ done s
  ]

unfoldable pub read_secrets : Services → List String → Fields → M Fields
read_secrets services [] s = done s
read_secrets services (name ∷ names) s =
    get_secret services name >>= λ d. read_secrets services names (set_field name (text d) s)

unfoldable pub add_secrets : Services → Fields → List String → M Fields
add_secrets services m secrets =
    if is_empty_list secrets
    then done m
    else (do s ← read_secrets services secrets end; done (set_field "secrets" (object s) m))

abbrev pub input_query : Value → Value
input_query input = if is_nil input then text "jq(.)" else input

-- The JSON text that is sent is that of the value returned.
unfoldable pub generate_action_input : Services → Value → ActionDefinition → M Value
generate_action_input services input action = do
  m ← jq_object services input (text "jq(.)")
  m' ← add_secrets services m action.secrets
  jq_one services (object m') (input_query action.input)

abbrev pub or_internal : {A : Type 0} → Result A → M A
or_internal (ok a) = done a
or_internal (err e) = fail (internal e)
or_internal panic = crash

-- `doActionRequest`: the request of the action `id` is sent in a goroutine.
unfoldable pub do_action_request :
    Services → String → String → FunctionDefinition → Value → M (Unit {0})
do_action_request services namespace id fn input = do
  i ← this
  elim (services.service_hash namespace i.wf.id fn.id) [
    | none ↦ fail (internal (new "cannot hash the service"))
    | some hash ↦ emit (requested id hash input)
  ]

abbrev pub max_subflow_depth : ℕ
max_subflow_depth = 5

-- The `Depth` of a caller that was called by `callers_caller`.
unfoldable pub caller_depth : InvokedBy → M ℕ
caller_depth nobody = done 0
caller_depth garbled = fail (other (new "an internal error occurred"))
caller_depth (caller cc) =
    if ltb max_subflow_depth (suc cc.depth)
    then fail (
        uncatchable "direktiv.limits.depth"
          "instance aborted for exceeding the maximum subflow depth (5)")
    else done (suc cc.depth)

-- `newWorkflowLogicInstance`: the state data and the workflow of the new instance.
abbrev pub start_data : Value → Value
start_data (object m) = object m
start_data v = object (field "input" v end)

abbrev pub loaded_workflow : Bool → Option Workflow → M Workflow
loaded_workflow false wf = fail (other (new "workflow is inactive"))
loaded_workflow true none = fail (internal (new "cannot load the workflow"))
loaded_workflow true (some wf) = done wf

abbrev pub found_workflow : StoredWorkflow → M Workflow
found_workflow no_workflow =
    fail (uncatchable "direktiv.subflow.notExist" "workflow does not exist")
found_workflow (query_failed e) = fail (internal e)
found_workflow (stored_workflow active wf) = loaded_workflow active wf

unfoldable pub new_workflow_logic_instance : Services → String → String → M Workflow
new_workflow_logic_instance services namespace name =
    found_workflow (services.find_workflow namespace name)

-- `subflowInvoke` hides an internal error of the above.
abbrev pub hidden : {A : Type 0} → Outcome A → Outcome A
hidden (Outcome.failed (internal e)) = Outcome.failed (other (new "an internal error occurred"))
hidden r = r

abbrev pub hiding : {A : Type 0} → M A → M A
hiding m w = let (r, w') = m w in (hidden r, w')

abbrev pub is_default_start : Option Start → Bool
is_default_start none = true
is_default_start (some s) = get_type s == StartType.default_start

-- The record of the child is added, and the child starts in a goroutine.
abbrev pub child_added : String → SubflowCaller → Value → String → Option Failure → M String
child_added name c input id (some e) = fail (new_internal_error e)
child_added name c input id none = emit (invoked_subflow name c (start_data input)) >> done id

unfoldable pub add_child : Services → String → SubflowCaller → Value → M String
add_child services name c input = do
  id ← next_id services
  answer ← write
  child_added name c input id answer

abbrev pub subflow_caller : Instance → String → ℕ → SubflowCaller
subflow_caller i state depth = record {
  instance_id = i.id;
  state = state;
  step = i.step;
  depth = depth;
}

-- The caller of the subflow `name` is the state `state`.
unfoldable pub subflow_invoke : Services → String → String → Value → M String
subflow_invoke services state name input = do
  i ← this
  rec ← the_record
  depth ← caller_depth rec.invoked_by
  wf ← hiding (new_workflow_logic_instance services i.namespace name)
  if is_default_start wf.start
      then add_child services name (subflow_caller i state depth) input
      else fail (other (new "cannot subflow invoke workflows with such starts"))
