-- ===== src/Engine/Logic/Tests.antt =====
-- The theorems on the states at an instance of the sample workflow.
use direktiv.Base.{ne_of_str_eq, ◌≡◌, refl, some, none, ◌∷◌, [], true, false}
use direktiv.Model.Value.{text, pos, null}
use direktiv.Model.State
use direktiv.Model.State.{State}
use direktiv.Model.Samples.{sample, switch_of, parallel_of, condition_of, action_of}
use direktiv.Engine.World.{World, memory}
use direktiv.Engine.World.{returned, branches, result}
use direktiv.Engine.Retry
use direktiv.Engine.Logic.Branches.Scan.{Awaits, all_complete}
use direktiv.Engine.Logic.Parallel
use direktiv.Engine.Logic.ForEach
use direktiv.Engine.Logic.ForEach.Ready.{foreach-ready}
use direktiv.Engine.Logic.Branches.Stored.{closed, kept}
use direktiv.Engine.Logic.Events.Stores.{with_data}
use direktiv.Engine.Instance.{set_field}
use direktiv.Model.Value.{end, field, array, cons, nil}
use direktiv.Engine.Logic.Action as Action_logic
use direktiv.Engine.Logic.Action.Results.{action-retries}
use direktiv.Model.Common.{ActionDefinition}
use direktiv.Engine.World.{ActionSavedata, Savedata, scheduled_retry, retry_action}
use direktiv.Engine.Logic.Parallel.Ready.{parallel-and}
use direktiv.Engine.Samples.{services, first_row, first_world, branch, payload}
use direktiv.Model.StateType
use direktiv.Engine.Samples.{policy}

abbrev no_switch : State.Switch.SwitchState
no_switch = record switch_of { conditions = condition_of "jq(no)" "first" ∷ [] }

branches-Awaits : Awaits "b" (branch "a" true ∷ []) (branch "b" false) []
branches-Awaits = record {
  named = refl;
  incomplete = refl;
  others_before = (ne_of_str_eq "a" "b" refl, tt);
  others_after = tt;
}

parallel-and_example :
    (Parallel.logic services sample parallel_of).run
      (branches (branch "a" true ∷ branch "b" false ∷ []))
      (result (payload "b" ""))
      first_world
    ≡ (
      returned (
          some (record { next_state = parallel_of.transition; transform = parallel_of.transform })),
      with_data
          (field "return" (array (cons (branch "a" true).results (cons (text "out") nil))) end)
          first_world,
    )
unfolding all_complete set_field
parallel-and_example =
    parallel-and services sample parallel_of (branch "a" true ∷ []) [] (branch "b" false)
      (payload "b" "") end first_row first_world refl refl refl branches-Awaits refl refl

abbrev or_state : State.Parallel.ParallelState
or_state = record parallel_of { mode = 1 }

abbrev each_state : State.ForEach.ForEachState
each_state = record {
  common = record { id = "each"; type = StateType.for_each; log = null; catch = [] };
  array = text "list";
  action = some (action_of "fetch");
  timeout = "";
  transform = null;
  transition = "last";
}

foreach-ready_example :
    (ForEach.logic services sample each_state).run
      (branches (branch "a" false ∷ branch "b" false ∷ []))
      (result (payload "b" ""))
      first_world
    ≡ kept (branch "a" false ∷ closed (text "out") (branch "b" false) ∷ []) first_row first_world
unfolding all_complete
foreach-ready_example =
    foreach-ready services sample each_state (branch "a" false ∷ []) [] (branch "b" false)
      (payload "b" "") end first_row first_world refl refl
      (record {
        named = refl;
        incomplete = refl;
        others_before = (ne_of_str_eq "a" "b" refl, tt);
        others_after = tt;
      })
      refl refl

abbrev act_of : ActionDefinition → State.Action.ActionState
act_of a = record {
  common = record { id = "act"; type = StateType.action; log = null; catch = [] };
  action = some a;
  async = false;
  timeout = "";
  transform = null;
  transition = "last";
}

abbrev once : ActionSavedata
once = record { op = "do"; id = "b"; attempts = 1 }

abbrev retried : ActionDefinition
retried = record (action_of "fetch") { retries = some policy }

action-retries_example :
    (w' : World) × ((Action_logic.logic services sample (act_of retried)).run
        (Savedata.action once)
        (result (payload "b" "io"))
        first_world
      ≡ (returned none, w'))
    × (w'.instance.rec
        ≡ some (record first_row {
          memory = memory (Savedata.action (record { op = "retry"; id = ""; attempts = 2 }));
        }))
    × (w'.effects
        ≡ scheduled_retry "act" 1
            (pos 60)
            (retry_action (record { op = "retry"; id = ""; attempts = 2 }))
          ∷ [])
unfolding Retry.preprocess_retry Retry.is_retryable Retry.retry_delay Retry.scaled
action-retries_example =
    action-retries services sample (act_of retried) retried once (payload "b" "io") (pos 60)
      first_row first_world refl refl refl (ne_of_str_eq "io" "" refl) refl refl refl
