-- ===== src/Engine/Step.antt =====
-- How an instance gets to a state: `Transition` and `loadWorkflowLogicInstance` of
-- pkg/direktiv/wli.go, and `GetStartState` under `start`.
pub mod Drops
pub mod Goes
pub mod Timeouts
pub mod Loads
use direktiv.Base.{
  ℕ, zero, suc, ◌+◌, ◌==◌, String, str_eq, is_empty, Bool, true, false, not, ◌&&◌, ◌||◌, List, [],
  ◌∷◌, ◌++◌, Option, none, some, new, about, if◌then◌else◌, Dict, lookup, length,
}
use direktiv.Model.Value.{ℤ, pos, negsuc, Value}
use direktiv.Model.Common.{TimeoutDefinition}
use direktiv.Model.StateType
use direktiv.Model.State.{State, get_id, get_type}
use direktiv.Model.Workflow.{Workflow, get_states_map}
use direktiv.Engine.Errors.{Failure, internal, other, new_internal_error}
use direktiv.Engine.Services.{Services, seconds}
use direktiv.Engine.Instance.{lock, unlock, close}
use direktiv.Engine.World.{
  World, Outcome, returned, failed, panicked, M, Record, Instance, Savedata, nothing, Wakedata,
  no_wake, Effect, TimeoutName, unnumbered, numbered, cancelled_timeout, scheduled_timeout, ◌>>=◌,
  ◌>>◌, done, fail, crash, emit, this, the_record, put_instance, put_record, write,
}
use direktiv.Engine.Run.{StateLogic, run_state}

-- The keys of the engine's map `stateLogics` (engine.go). `StateTypeCallback` is not among them.
unfoldable pub has_logic : ℕ → Bool
has_logic t =
    t == StateType.noop
    || (t == StateType.action
        || (t == StateType.consume_event
            || (t == StateType.delay
                || (t == StateType.error
                    || (t == StateType.events_and
                        || (t == StateType.events_xor
                            || (t == StateType.for_each
                                || (t == StateType.generate_event
                                    || (t == StateType.parallel
                                        || (t == StateType.switch
                                            || (t == StateType.validate
                                                || (t == StateType.getter
                                                    || t == StateType.setter))))))))))))

-- The functions of that map: none for a state object of another type ("bad state object").
abbrev pub Init : Type 0
Init = Workflow → State → Option StateLogic

abbrev pub pred_ℤ : ℕ → ℤ
pred_ℤ zero = negsuc 0
pred_ℤ (suc n) = pos n

abbrev pub timeout_name : ℕ → TimeoutName
timeout_name zero = unnumbered
timeout_name (suc n) = numbered (pos (suc n))

-- `scheduleTimeout`: the timeouts of the previous step and of this one are cancelled, then one is
-- set. What goes wrong with a timer is logged, and nothing else.
unfoldable pub schedule_timeout : Bool → ℕ → M (Unit {0})
schedule_timeout soft deadline = do
  i ← this
  emit (cancelled_timeout soft (numbered (pred_ℤ i.step)))
  emit (cancelled_timeout soft (timeout_name i.step))
  emit (scheduled_timeout soft (timeout_name i.step) i.step deadline)

-- The soft and hard deadline of an instance; none where a duration cannot be read.
abbrev pub shifted : Services → String → ℕ → Option ℕ
shifted services s default =
    if is_empty s
    then some default
    else (elim (services.duration s) [ none ↦ none | some d ↦ some (services.now + d) ])

abbrev pub hard_default : Services → String → ℕ → ℕ
hard_default services interrupt soft =
    if is_empty interrupt then services.now + seconds 1200 else soft + seconds 300

unfoldable pub instance_deadlines : Services → Option TimeoutDefinition → Option (ℕ × ℕ)
instance_deadlines services none = some (services.now + seconds 900, services.now + seconds 1200)
instance_deadlines services (some t) =
    elim (shifted services t.interrupt (services.now + seconds 900)) [
      | none ↦ none
      | some soft ↦ elim (shifted services t.kill (hard_default services t.interrupt soft)) [
        | none ↦ none
        | some hard ↦ some (soft, hard)
      ]
    ]

-- The logic of the state of that name, as the three lookups give it; none where one of them fails.
abbrev pub logic_of : Init → Workflow → Option State → Option StateLogic
logic_of init wf none = none
logic_of init wf (some s) = if has_logic (get_type s) then init wf s else none

unfoldable pub find_logic : Init → Workflow → String → Option StateLogic
find_logic init wf name = logic_of init wf (lookup name (get_states_map wf))

-- The record at the new state. `SetNillableMemory(nil)` sets nothing: the memory stays.
abbrev pub moved : Services → Record → String → ℕ → Value → ℕ → Record
moved services rec next_state attempt state_data deadline = record rec {
  deadline = deadline;
  controller = services.hostname;
  attempts = attempt;
  flow = rec.flow ++ (next_state ∷ []);
  state_data = state_data;
}

-- What follows the write of the record.
unfoldable pub enter : Services → StateLogic → Record → Option Failure → M (Unit {0})
enter services logic rec (some e) = close
enter services logic rec none = do
  put_record (some rec)
  schedule_timeout true logic.deadline
  run_state services logic nothing no_wake none

abbrev pub entering :
    Services → Init → String → ℕ → Instance → Record → Option StateLogic → M (Unit {0})
entering services init next_state attempt i rec none = close
entering services init next_state attempt i rec (some logic) = do
  put_instance (record i { step = suc i.step })
  answer ← write
  enter services logic (moved services rec next_state attempt i.state_data logic.deadline) answer

unfoldable pub enter_state : Services → Init → String → ℕ → M (Unit {0})
enter_state services init next_state attempt = do
  i ← this
  rec ← the_record
  entering services init next_state attempt i rec (find_logic init i.wf next_state)

-- From the test of the step on. An empty name panics.
unfoldable pub step_to : Services → Init → String → ℕ → M (Unit {0})
step_to services init next_state attempt = do
  i ← this
  rec ← the_record
  if length rec.flow == i.step
      then (if is_empty next_state then crash else enter_state services init next_state attempt)
      else close

-- The first step: the deadlines of the instance are set before it.
unfoldable pub with_timeouts : Option (ℕ × ℕ) → M (Unit {0}) → M (Unit {0})
with_timeouts none next = close
with_timeouts (some (soft, hard)) next = do
  schedule_timeout true soft
  schedule_timeout false hard
  next

unfoldable pub transition : Services → Init → String → ℕ → M (Unit {0})
transition services init next_state attempt = do
  i ← this
  rec ← the_record
  if i.step == 0
      then with_timeouts (instance_deadlines services i.wf.timeouts)
          (step_to services init next_state attempt)
      else step_to services init next_state attempt

abbrev pub is_active : String → Bool
is_active status = str_eq status "pending" || str_eq status "running"

-- `rec.Flow[len(rec.Flow)-1]` panics at an empty flow.
abbrev pub last? : List String → Option String
last? [] = none
last? (x ∷ []) = some x
last? (x ∷ y ∷ rest) = last? (y ∷ rest)

-- Each refusal of `loadWorkflowLogicInstance` unlocks the instance, and is an internal error.
unfoldable pub refuse_load : {A : Type 0} → String → M A
refuse_load message = do unlock; fail (internal (new message))

-- `step` is none for the -1 of a caller that does not say at which step it expects the instance.
abbrev pub is_out_of_sync : Option ℕ → ℕ → Bool
is_out_of_sync none actual = false
is_out_of_sync (some step) actual = not (step == actual)

abbrev pub or_refuse : Option StateLogic → M StateLogic
or_refuse none = refuse_load "workflow cannot resolve state"
or_refuse (some logic) = done logic

unfoldable pub load_state : Init → Workflow → Option String → M StateLogic
load_state init wf none = crash
load_state init wf (some name) = or_refuse (find_logic init wf name)

-- What follows the read of the record `rec`, whose workflow is `wf`.
unfoldable pub load_record : Init → Workflow → Option ℕ → Record → M StateLogic
load_record init wf step rec =
    if not (is_active rec.status)
    then refuse_load "aborting workflow logic: database records instance terminated"
    else (if is_out_of_sync step (length rec.flow)
        then refuse_load "aborting workflow logic: steps out of sync"
        else (do
          i ← this
          put_instance (record i {
            rec = some rec;
            wf = wf;
            state_data = rec.state_data;
            step = length rec.flow;
          })
          load_state init wf (last? rec.flow)))

abbrev refused_lock : {A : Type 0} → Outcome A → Outcome A
refused_lock (failed e) = failed (internal (new "cannot assume control of workflow instance lock"))
refused_lock r = r

abbrev pub lock_or_refuse : M (Unit {0})
lock_or_refuse w = let (r, w') = lock w in (refused_lock r, w')

-- What the database has under the identifier of the instance: nothing, state data or a workflow that
-- cannot be read, or its namespace, its record and its workflow.
pub data StoredInstance : Type 0 where
  no_instance : StoredInstance
  bad_state_data : StoredInstance
  bad_workflow : StoredInstance
  stored_instance : String → Record → Workflow → StoredInstance

abbrev pub put_namespace : String → M (Unit {0})
put_namespace namespace = do i ← this; put_instance (record i { namespace = namespace })

abbrev pub load_stored : Init → StoredInstance → Option ℕ → M StateLogic
load_stored init no_instance step = refuse_load "workflow instance not found"
load_stored init bad_state_data step = refuse_load "cannot load saved workflow state data"
load_stored init bad_workflow step = refuse_load "cannot load saved workflow definition"
load_stored init (stored_instance namespace rec wf) step = do
  put_namespace namespace
  load_record init wf step rec

unfoldable pub load : Init → StoredInstance → Option ℕ → M StateLogic
load init stored step = do lock_or_refuse; load_stored init stored step
