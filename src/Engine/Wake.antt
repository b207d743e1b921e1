-- ===== src/Engine/Wake.antt =====
-- What wakes an instance: `retryWakeup`, `sleepWakeup`, `wakeEventsWaiter`, `cancelInstance` and
-- `timeoutHandler` (pkg/direktiv/engine.go), `ReportActionResults` and `Resume` (flow.go), and
-- `start` (wli.go). The goroutine that each starts last is its last step here. The broadcast that
-- `cancelInstance` sends after 100 milliseconds of waiting for the lock is left out.
pub mod Frees
use direktiv.Base.{
  new, ℕ, String, Bool, Option, none, some, if◌then◌else◌, List, [], Result, ok, err, panic,
}
use direktiv.Model.State.{State, get_id}
use direktiv.Model.Workflow.{get_start_state}
use direktiv.Engine.Errors.{other, Failure, catchable, uncatchable}
use direktiv.Engine.Services.{Services}
use direktiv.Engine.Instance.{instance_memory, close, lock}
use direktiv.Engine.World.{
  World, Outcome, returned, failed, panicked, M, Record, Savedata, nothing, Memory, memory, corrupt,
  Wakedata, CloudEvent, woken_by, no_wake, sleep, result, ActionResultPayload, ◌>>=◌, ◌>>◌, done,
  fail, crash, this, the_record, pass,
}
use direktiv.Engine.Run.{StateLogic, run_state}
use direktiv.Engine.Step.{Init, StoredInstance, load, transition}

-- A handler that logs the error of a load, and returns nil.
abbrev pub after_load :
    (StateLogic → M (Unit {0})) → Outcome StateLogic × World → Outcome (Unit {0}) × World
after_load k (returned logic, w) = k logic w
after_load k (failed e, w) = (returned tt, w)
after_load k (panicked, w) = (panicked, w)

unfoldable pub sleep_wakeup : Services → Init → StoredInstance → ℕ → M (Unit {0})
sleep_wakeup services init stored step w =
    after_load (λ logic. run_state services logic nothing sleep none)
      (load init stored (some step) w)

-- An error of `InstanceMemory` is returned with the instance still locked.
unfoldable pub retry_loaded : Services → Wakedata → StateLogic → M (Unit {0})
retry_loaded services wakedata logic = do
  rec ← the_record
  savedata ← instance_memory rec
  run_state services logic savedata wakedata none

unfoldable pub retry_wakeup : Services → Init → StoredInstance → ℕ → Wakedata → M (Unit {0})
retry_wakeup services init stored step wakedata w =
    after_load (retry_loaded services wakedata) (load init stored (some step) w)

-- `InstanceMemory`, and `Close` where it fails.
abbrev pub closing : Outcome Savedata × World → Outcome Savedata × World
closing (failed e, w) = (close >> fail e) w
closing r = r

abbrev pub memory_or_close : M Savedata
memory_or_close w = closing ((the_record >>= instance_memory) w)

unfoldable pub run_saved : Services → Wakedata → Option Failure → StateLogic → M (Unit {0})
run_saved services wakedata e logic = do
  savedata ← memory_or_close
  run_state services logic savedata wakedata e

unfoldable pub report_action_results :
    Services → Init → StoredInstance → ℕ → ActionResultPayload → M (Unit {0})
report_action_results services init stored step payload =
    load init stored (some step) >>= run_saved services (result payload) none

-- `wakeEventsWaiter` with a signature that can be read, which names the instance and its step.
abbrev pub load_error : Outcome StateLogic × World → Outcome StateLogic × World
load_error (failed e, w) = (failed (other (new "cannot load workflow logic instance")), w)
load_error r = r

unfoldable pub wake_events_waiter :
    Services → Init → StoredInstance → ℕ → List CloudEvent → M (Unit {0})
wake_events_waiter services init stored step events w =
    pass (run_saved services (woken_by events) none) (load_error (load init stored (some step) w))

unfoldable pub resume : Services → Init → StoredInstance → ℕ → M (Unit {0})
resume services init stored step = do
  logic ← load init stored (some step)
  run_state services logic nothing no_wake none

-- The message is the format string of the error.
abbrev pub cancel_error : Services → Bool → String → String → Failure
cancel_error services soft code message =
    if soft
    then catchable code (services.sprintf message [])
    else uncatchable code (services.sprintf message [])

-- An instance is cancelled at whatever step it is.
unfoldable pub cancel_instance :
    Services → Init → StoredInstance → String → String → Bool → M (Unit {0})
cancel_instance services init stored code message soft =
    load init stored none
    >>= run_saved services no_wake (some (cancel_error services soft code message))

-- `timeoutHandler`: the error of the cancellation is dropped, and so is the step of the timeout.
abbrev pub drop_error : Outcome (Unit {0}) × World → Outcome (Unit {0}) × World
drop_error (failed e, w) = (returned tt, w)
drop_error r = r

unfoldable pub timeout_handler : Services → Init → StoredInstance → Bool → M (Unit {0})
timeout_handler services init stored soft w = drop_error (
    cancel_instance services init stored "direktiv.cancels.timeout"
      (if soft then "operation timed out" else "workflow timed out") soft w)

-- `start`: the error of the lock is logged.
abbrev pub start_at : Services → Init → Result State → M (Unit {0})
start_at services init (ok s) = transition services init (get_id s) 0
start_at services init (err e) = crash
start_at services init panic = crash

abbrev pub start_locked : Services → Init → Outcome (Unit {0}) × World → Outcome (Unit {0}) × World
start_locked services init (returned u, w) =
    start_at services init (get_start_state w.instance.wf) w
start_locked services init (failed e, w) = (returned tt, w)
start_locked services init (panicked, w) = (panicked, w)

unfoldable pub start : Services → Init → M (Unit {0})
start services init w = start_locked services init (lock w)
