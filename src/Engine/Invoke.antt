-- ===== src/Engine/Invoke.antt =====
-- How workflows are started: `PrepareInvoke`, `CronInvoke` and `EventsInvoke` of
-- pkg/direktiv/engine.go, `newWorkflowLogicInstance` of wli.go and `addWorkflowInstance` of
-- db-instance.go. The goroutine that starts the instance is an instance that is returned.
pub mod Table
pub mod Created
pub mod Guards
pub mod Exclusive
mod Tests
use Prim.Native.String.{◌++◌ as join}
use direktiv.Base.{
  ℕ, zero, suc, ◌+◌, ◌==◌, ltb, String, str_eq, Bool, true, false, not, ◌&&◌, ◌||◌, List, [], ◌∷◌,
  ◌++◌, Option, none, some, new, Result, ok, err, panic, if◌then◌else◌,
}
use direktiv.Model.Value.{Value, object, Fields, end}
use direktiv.Model.Start.{Start, get_type}
use direktiv.Model.StartType
use direktiv.Model.Workflow.{Workflow, get_start_state}
use direktiv.Model.State.{State}
use direktiv.Engine.Errors.{Failure, catchable, internal, other, new_internal_error}
use direktiv.Engine.Services.{Services, seconds}
use direktiv.Engine.Invoke.Table.{
  InstanceRow, Database, Insertion, inserted, already_invoked, excluded, refused,
  add_workflow_instance, exclusion,
}
use direktiv.Engine.Instance.{close, set_field}
use direktiv.Engine.Action.{
  new_workflow_logic_instance, start_data, next_id, hiding, is_default_start,
}
use direktiv.Engine.World.{
  World, M, Outcome, returned, failed, panicked, Instance, Record, memory, nothing, nobody,
  CloudEvent, done, fail, crash, put_instance, ◌>>=◌, ◌>>◌,
}
use direktiv.Engine.Logic.Events.{extract_event_payload}

abbrev pub new_record : String → String → Record
new_record id workflow_id = record {
  instance_id = id;
  workflow_id = workflow_id;
  invoked_by = nobody;
  status = "pending";
  ended = false;
  flow = [];
  output = none;
  state_data = object end;
  memory = memory nothing;
  attempts = 0;
  error_code = "";
  error_message = "";
  controller = "";
  deadline = 0;
}

abbrev pub new_instance : String → String → String → Value → Workflow → Instance
new_instance namespace name suffix input wf = record {
  id = join namespace (join "/" (join name (join "/" suffix)));
  namespace = namespace;
  state_data = start_data input;
  wf = wf;
  rec = none;
  step = 0;
  locked = false;
}

-- The whole of `newWorkflowLogicInstance`.
unfoldable pub create : Services → String → String → Value → M Instance
unfolding new_workflow_logic_instance next_id
create services namespace name input = do
  wf ← new_workflow_logic_instance services namespace name
  suffix ← next_id services
  put_instance (new_instance namespace name suffix input wf)
  done (new_instance namespace name suffix input wf)

-- What an invocation gives, and the table after it.
abbrev pub Invoked : Type 0
Invoked = (Outcome (Option Instance) × World) × List InstanceRow

abbrev pub refuse : Failure → List InstanceRow → World → Invoked
refuse e rows w = ((close >> fail e) w, rows)

-- The start state is looked up for the log.
abbrev pub ready : String → Instance → World → Outcome (Option Instance) × World
ready workflow_id i =
    let i' = record i { rec = some (new_record i.id workflow_id) } in
    elim (get_start_state i.wf) [
      | ok s ↦ put_instance i' >> done (some i')
      | err e ↦ crash
      | panic ↦ crash
    ]

abbrev pub bad_start : Failure
bad_start = other (new "cannot invoke workflows with such starts")

-- `PrepareInvoke`.
unfoldable pub prepare_inserted : String → Instance → Insertion × List InstanceRow → World → Invoked
unfolding close
prepare_inserted workflow_id i (inserted, rows) w = (ready workflow_id i w, rows)
prepare_inserted workflow_id i (already_invoked, rows) w =
    refuse (internal (new "cron already invoked")) rows w
prepare_inserted workflow_id i (excluded, rows) w = refuse (new_internal_error exclusion) rows w
prepare_inserted workflow_id i (refused e known, rows) w = refuse (new_internal_error e) rows w

unfoldable pub prepare_created :
    Services → String → String → Database → Outcome Instance × World → Invoked
unfolding prepare_inserted add_workflow_instance
prepare_created services name workflow_id db (failed e, w) = ((failed e, w), db.rows)
prepare_created services name workflow_id db (panicked, w) = ((panicked, w), db.rows)
prepare_created services name workflow_id db (returned i, w) =
    if is_default_start i.wf.start
    then prepare_inserted workflow_id i
        (add_workflow_instance services.now name i.id false i.wf.exclusive db) w
    else refuse bad_start db.rows w

unfoldable pub prepare_invoke :
    Services → String → String → String → Value → Database → World → Invoked
unfolding prepare_created create
prepare_invoke services namespace name workflow_id input db w =
    prepare_created services name workflow_id db (hiding (create services namespace name input) w)

-- `CronInvoke`, once the workflow and its namespace are found. The refusal of another start reads
-- the type of the start, which panics where there is none, after the instance has been closed.
unfoldable pub cron_inserted : String → Instance → Insertion × List InstanceRow → World → Invoked
unfolding close
cron_inserted workflow_id i (inserted, rows) w = (ready workflow_id i w, rows)
cron_inserted workflow_id i (already_invoked, rows) w = ((close >> done none) w, rows)
cron_inserted workflow_id i (excluded, rows) w = refuse (new_internal_error exclusion) rows w
cron_inserted workflow_id i (refused e true, rows) w = ((close >> done none) w, rows)
cron_inserted workflow_id i (refused e false, rows) w = refuse (new_internal_error e) rows w

abbrev pub cron_started :
    Services → String → String → Database → Instance → Option Start → World → Invoked
cron_started services name workflow_id db i none w = ((close >> crash) w, db.rows)
cron_started services name workflow_id db i (some s) w =
    if get_type s == StartType.scheduled
    then cron_inserted workflow_id i
        (add_workflow_instance services.now name i.id true i.wf.exclusive db) w
    else refuse bad_start db.rows w

unfoldable pub cron_created :
    Services → String → String → Database → Outcome Instance × World → Invoked
unfolding cron_inserted add_workflow_instance close get_type
cron_created services name workflow_id db (failed e, w) = ((failed e, w), db.rows)
cron_created services name workflow_id db (panicked, w) = ((panicked, w), db.rows)
cron_created services name workflow_id db (returned i, w) =
    cron_started services name workflow_id db i i.wf.start w

unfoldable pub cron_invoke : Services → String → String → String → Database → World → Invoked
unfolding cron_created create
cron_invoke services namespace name workflow_id db w =
    cron_created services name workflow_id db
      (hiding (create services namespace name (object end)) w)

-- `EventsInvoke`, once the workflow and its namespace are found. It returns no error.
unfoldable pub events_input : List CloudEvent → Fields → M Fields
unfolding set_field
events_input [] m = done m
events_input (e ∷ es) m = do x ← extract_event_payload e; events_input es (set_field e.type x m)

abbrev pub is_event_start : Option Start → Bool
is_event_start none = false
is_event_start (some s) =
    get_type s == StartType.event
    || (get_type s == StartType.events_and || get_type s == StartType.events_xor)

unfoldable pub events_inserted : String → Instance → Insertion × List InstanceRow → World → Invoked
unfolding close
events_inserted workflow_id i (inserted, rows) w =
    let i' = record i { rec = some (new_record i.id workflow_id) } in
    ((put_instance i' >> done (some i')) w, rows)
events_inserted workflow_id i (other_answer, rows) w = ((close >> done none) w, rows)

unfoldable pub events_created :
    Services → String → String → Database → Outcome Instance × World → Invoked
unfolding events_inserted add_workflow_instance close get_type
events_created services name workflow_id db (failed e, w) = ((returned none, w), db.rows)
events_created services name workflow_id db (panicked, w) = ((panicked, w), db.rows)
events_created services name workflow_id db (returned i, w) =
    if is_event_start i.wf.start
    then events_inserted workflow_id i
        (add_workflow_instance services.now name i.id false i.wf.exclusive db) w
    else ((close >> done none) w, db.rows)

unfoldable pub events_invoke :
    Services → String → String → String → List CloudEvent → Database → World → Invoked
unfolding events_created create events_input
events_invoke services namespace name workflow_id events db w =
    events_created services name workflow_id db
      ((events_input events end >>= λ m. create services namespace name (object m)) w)
