-- ===== src/Engine/Logic/Branches.antt =====
-- The actions of a parallel or foreach state (pkg/direktiv/state-logic-parallel.go and
-- state-logic-foreach.go, which have the same code for them): started, awaited and tried again.
pub mod Scan
pub mod Stored
use direktiv.Base.{
  ℕ, zero, suc, ◌+◌, String, str_eq, is_empty, Bool, true, false, not, ◌&&◌, List, [], ◌∷◌, map,
  length, set, Option, none, some, new, about, if◌then◌else◌,
}
use direktiv.Model.Value.{ℤ, Value, null, text, array, Items, nil, cons}
use direktiv.Model.Common.{ActionDefinition}
use direktiv.Model.Workflow.{Workflow, get_function}
use direktiv.Engine.Errors.{Failure, internal, catchable}
use direktiv.Engine.Services.{Services}
use direktiv.Engine.Instance.{save, store_data}
use direktiv.Engine.World.{
  this, M, Branch, Savedata, nothing, branches, Wakedata, no_wake, result, retry_action,
  retry_branch, sleep, unreadable, ActionResultPayload, Output, json, raw, done, fail, crash, ◌>>=◌,
  ◌>>◌,
}
use direktiv.Engine.Run.{StateChild, StateTransition}
use direktiv.Engine.Retry.{Retry, again, give_up, schedule_wakeup}
use direktiv.Engine.Action.{
  next_id, generate_action_input, or_internal, do_action_request, subflow_invoke,
}
use direktiv.Engine.Logic.Noop.{go_to}

abbrev pub max_parallel_actions : ℕ
max_parallel_actions = 10

-- `LivingChildren`.
unfoldable pub living_branches : List Branch → List StateChild
living_branches [] = []
living_branches (b ∷ bs) =
    if b.complete
    then living_branches bs
    else record { id = b.id; type = b.type } ∷ living_branches bs

unfoldable pub living_children : Savedata → List StateChild
living_children (branches bs) = living_branches bs
living_children _ = []

abbrev pub started : String → String → ℕ → Branch
started id type attempts = record {
  id = id;
  complete = false;
  type = type;
  attempts = attempts;
  results = null;
}

-- `dispatchAction` and `do`: the action of the state `state` at that input.
unfoldable pub dispatch : Services → Workflow → String → Value → ActionDefinition → ℕ → M Branch
dispatch services wf state source a attempt = do
  i ← this
  input ← generate_action_input services source a
  if is_empty a.function
      then (do
        id ← subflow_invoke services state a.workflow input
        done (started id "subflow" attempt))
      else (do
        id ← next_id services
        fn ← or_internal (get_function wf a.function)
        do_action_request services i.namespace id fn input
        done (started id "isolate" attempt))

unfoldable pub save_branches : List Branch → M (Option StateTransition)
save_branches bs = save (branches bs) >> done none

-- `json.Unmarshal(savedata, &logics)`.
unfoldable pub as_branches : Savedata → M (List Branch)
as_branches (branches bs) = done bs
as_branches _ = fail (internal (new "cannot decode the savedata"))

-- `json.Unmarshal(wakedata, results)`, which ignores unknown fields.
unfoldable pub as_results : Wakedata → M ActionResultPayload
as_results (result p) = done p
as_results (retry_action sd) =
    done (record { action_id = ""; error_code = ""; error_message = ""; output = raw "" })
as_results _ = fail (internal (new "cannot decode the wakedata"))

unfoldable pub output_value : Services → Output → Value
output_value services (json v) = v
output_value services (raw s) = text (services.base64 s)

abbrev pub Found : Type 0
Found = Option ℕ × ℕ

abbrev pub counted : String → ℕ → Branch → Found → Found
counted id i b (found, completed) =
    (if str_eq b.id id then some i else found, if b.complete then suc completed else completed)

-- The loop over the branches: the last one of that identifier and the number of those that are
-- complete, or none if one of that identifier is complete.
unfoldable pub scan : String → List Branch → ℕ → Found → Option Found
scan id [] i acc = some acc
scan id (b ∷ bs) i acc =
    if str_eq b.id id && b.complete then none else scan id bs (suc i) (counted id i b acc)

abbrev pub complete_branch : Branch → Branch
complete_branch b = record b { complete = true }

abbrev pub with_results : Value → Branch → Branch
with_results x b = record b { results = x }

abbrev pub items : List Branch → Items
items [] = nil
items (b ∷ bs) = cons b.results (items bs)

-- The end of the state: the results of the branches are stored, in their order.
unfoldable pub all_done : Value → String → List Branch → M (Option StateTransition)
all_done transform transition bs =
    store_data "return" (array (items bs)) >> go_to transform transition

unfoldable pub advance : Bool → Value → String → List Branch → M (Option StateTransition)
advance ready transform transition bs =
    if ready then all_done transform transition bs else save_branches bs

abbrev pub again_branch : Branch → Branch
again_branch b = record b { attempts = suc b.attempts; id = "" }

-- `scheduleRetry` of the state.
unfoldable pub schedule_retry : String → List Branch → ℕ → Branch → ℤ → M (Option StateTransition)
schedule_retry state bs idx b d = do
  save (branches (set bs idx (again_branch b)))
  schedule_wakeup state d (retry_branch (set bs idx (again_branch b)) idx)
  done none

-- `NewCatchableError` takes the message of the action for a format string.
abbrev pub action_error : Services → ActionResultPayload → Failure
action_error services p = catchable p.error_code (services.sprintf p.error_message [])
