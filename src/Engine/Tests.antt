-- ===== src/Engine/Tests.antt =====
-- The theorems on the engine at an instance of the sample workflow.
use direktiv.Base.{
  ne_of_str_eq, ◌≡◌, refl, some, none, lookup, ◌∷◌, [], true, false, arith, length, List, insert,
}
use direktiv.Model.Value.{pos, object, end, null}
use direktiv.Model.Samples.{sample}
use direktiv.Model.Workflow
use direktiv.Engine.World.{World, corrupt, memory, numbered}
use direktiv.Engine.Errors.{Failure, catchable, uncatchable}
use direktiv.Engine.World.{
  returned, failed, panicked, Record, nothing, no_wake, Effect, scheduled_timeout, caller,
}
use direktiv.Engine.Instance.{lock, unlock, local_cancel}
use direktiv.Engine.Instance.Lock.{unlock-local_cancel}
use direktiv.Engine.Run.{StateLogic, run_state, attempt, log_state}
use direktiv.Engine.Run.Settles.{Settled, run_state-Settled}
use direktiv.Engine.Run.Cases.{Running, Ended, failed_record}
use direktiv.Engine.Run.Catch.{run_state-Ended, run_state-Catches}
use direktiv.Engine.Run.Onward.{GoesOn}
use direktiv.Engine.Retry
use direktiv.Engine.Retry.Bound.{Justified, preprocess_retry-Justified}
use direktiv.Engine.Action
use direktiv.Engine.Action.Depth.{Started, subflow_invoke-Started}
use direktiv.Engine.Step
use direktiv.Engine.Wake
use direktiv.Engine.Wake.Frees.{Frees, wake-Frees, retry_wakeup-keeps_lock, cancel_instance-Ended}
use direktiv.Engine.Step.{
  StoredInstance, stored_instance, find_logic, transition, load, instance_deadlines,
  schedule_timeout,
}
use direktiv.Engine.Step.Goes.{entered, transition-enters}
use direktiv.Engine.Step.Loads.{Accepted, load-Accepted}
use direktiv.Engine.Samples.{
  policy, services, parent, row, first_row, first_world, unlocked_world, raising, init, payload,
}

abbrev stored_first : StoredInstance
stored_first = stored_instance "n" first_row sample

first_world-Running : Running first_world first_row
unfolding lookup
first_world-Running = record { stored = refl; locked = refl; registered = refl }

run_state-Settled_example :
    Settled
      (run_state services (raising (catchable "io" "broken")) nothing no_wake none first_world)
run_state-Settled_example =
    run_state-Settled services (raising (catchable "io" "broken")) nothing no_wake none first_world

run_state-Ended_example :
    Ended
      (run_state services (raising (uncatchable "fatal" "broken")) nothing no_wake none first_world)
      (failed_record first_row "failed" "fatal" "broken")
      none
unfolding attempt log_state
run_state-Ended_example =
    run_state-Ended services (raising (uncatchable "fatal" "broken")) nothing no_wake none
      (uncatchable "fatal" "broken") first_row first_world first_world refl first_world-Running refl
      tt

run_state-Catches_example :
    GoesOn
      (run_state services (raising (catchable "net" "broken")) nothing no_wake none first_world)
      "first"
      first_row
unfolding attempt log_state
run_state-Catches_example =
    run_state-Catches services (raising (catchable "net" "broken")) nothing no_wake none "net"
      "broken" (record { error = "io"; transition = "last" } ∷ [])
      (record { error = "*"; transition = "first" }) [] first_row first_world first_world refl
      first_world-Running refl (refl, tt) refl (ne_of_str_eq "first" "" refl)

unlock-local_cancel_example :
    let c = local_cancel "i" first_world in
    (c.0 ≡ returned tt) × ((unlock c.1).0 ≡ panicked) × ((unlock c.1).1.instance.locked ≡ true)
unlock-local_cancel_example = unlock-local_cancel first_world refl

preprocess_retry-Justified_example :
    Justified services (some policy) 1 (catchable "io" "broken") (pos 60)
unfolding Retry.preprocess_retry Retry.is_retryable Retry.retry_delay
preprocess_retry-Justified_example =
    preprocess_retry-Justified services (some policy) 1 (catchable "io" "broken") (pos 60) refl

subflow_invoke-Started_example :
    Started "call" "child" null first_world
      (Action.subflow_invoke services "call" "child" null first_world)
subflow_invoke-Started_example = subflow_invoke-Started services "call" "child" null first_world

abbrev deep_row : Record
deep_row = row ("first" ∷ []) (caller (parent 5))

transition-enters_example :
    (r' : Record) × (rest : List Effect) × (transition services init "last" 0 first_world
      ≡ run_state services
          (record (raising (catchable "io" "broken")) { id = "last" })
          nothing
          no_wake
          none
          (entered first_world r' (scheduled_timeout true (numbered (pos 2)) 2 5 ∷ rest)))
    × (r'.flow ≡ "first" ∷ "last" ∷ [])
    × (length r'.flow ≡ 2)
    × (r'.state_data ≡ object end)
    × (r'.deadline ≡ 5)
    × (r'.status ≡ "pending")
    × (r'.memory ≡ memory nothing)
unfolding Step.instance_deadlines Step.find_logic Step.has_logic Workflow.get_states_map
    Workflow.insert_states lookup insert
transition-enters_example =
    transition-enters services init "last" 0
      (record (raising (catchable "io" "broken")) { id = "last" }) first_row first_world refl refl
      (ne_of_str_eq "last" "" refl) (λ e. ground arith) refl refl

load-Accepted_example :
    Accepted init sample
      (some 1)
      first_row
      (load init (stored_instance "n" first_row sample) (some 1) unlocked_world)
load-Accepted_example = load-Accepted init "n" sample (some 1) first_row unlocked_world

wake-Frees_example :
    Frees (Wake.sleep_wakeup services init stored_first 1 unlocked_world)
    × Frees
        (Wake.report_action_results services init stored_first 1 (payload "b" "") unlocked_world)
    × Frees (Wake.wake_events_waiter services init stored_first 1 [] unlocked_world)
    × Frees (Wake.resume services init stored_first 1 unlocked_world)
    × Frees (Wake.cancel_instance services init stored_first "code" "message" true unlocked_world)
wake-Frees_example =
    wake-Frees services init stored_first 1 (payload "b" "") [] "code" "message" true unlocked_world
      refl

abbrev first_logic : StateLogic
first_logic = raising (catchable "io" "broken")

abbrev loaded_world : Record → World
loaded_world r = record first_world { instance = record first_world.instance { rec = some r } }

abbrev corrupt_row : Record
corrupt_row = record first_row { memory = corrupt }

retry_wakeup-keeps_lock_example :
    (e : Failure) × (Wake.retry_wakeup services init
        (stored_instance "n" corrupt_row sample)
        1
        no_wake
        unlocked_world
      ≡ (failed e, loaded_world corrupt_row))
    × ((loaded_world corrupt_row).instance.locked ≡ true)
unfolding load Step.load_record Step.load_state lock find_logic Step.has_logic
    Workflow.get_states_map Workflow.insert_states lookup insert
retry_wakeup-keeps_lock_example =
    retry_wakeup-keeps_lock services init "n" sample 1 no_wake corrupt_row first_logic
      unlocked_world (loaded_world corrupt_row) refl refl

cancel_instance-Ended_example :
    Ended
      (Wake.cancel_instance services init
        (stored_instance "n" first_row sample)
        "code"
        "message"
        false
        unlocked_world)
      (failed_record first_row "failed" "code" "message")
      none
unfolding load Step.load_record Step.load_state lock find_logic Step.has_logic
    Workflow.get_states_map Workflow.insert_states lookup insert
cancel_instance-Ended_example =
    cancel_instance-Ended services init "n" sample first_row nothing "code" "message" first_logic
      unlocked_world (loaded_world first_row) refl refl refl
