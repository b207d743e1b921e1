-- ===== src/Engine/Run.antt =====
-- pkg/direktiv/engine.go: `runState` and what it calls. A state is run through the interface
-- `stateLogic` (state-logic.go). `go wli.Transition(…)` is the effect `went_on`: the goroutine runs
-- `Step.transition` next.
pub mod Cases
pub mod Settles
pub mod Catch
pub mod Onward
use direktiv.Base.{
  ℕ, String, str_eq, is_empty, Bool, true, false, not, ◌&&◌, ◌||◌, List, [], ◌∷◌, Option, none,
  some, if◌then◌else◌,
}
use direktiv.Model.Value.{Value, null, text, object, Fields, end, field}
use direktiv.Model.Common.{ErrorDefinition, is_nil}
use direktiv.Engine.Errors.{Failure, catchable, uncatchable, internal, other}
use direktiv.Engine.Services.{Services}
use direktiv.Engine.Jq.{jq_one}
use direktiv.Engine.Instance.{
  instance_memory, complete_state, free_resources, close, wake_caller, set_status, store_data,
  transform,
}
use direktiv.Engine.World.{
  World, Outcome, returned, failed, panicked, M, Record, Savedata, Memory, nothing, memory, corrupt,
  Wakedata, no_wake, Effect, user_logged, cancelled_isolate, cancelled_subflow, went_on, ◌>>=◌,
  ◌>>◌, done, fail, emit, this, the_record, put_record, write,
}

-- `stateTransition`. A nil transition means that the instance waits.
pub record StateTransition : Type 0 where
  pub next_state : String
  pub transform : Value

-- `stateChild`.
pub record StateChild : Type 0 where
  pub id : String
  pub type : String

-- `stateLogic`.
pub record StateLogic : Type 0 where
  pub id : String
  pub deadline : ℕ
  pub error_catchers : List ErrorDefinition
  pub log_jq : Value
  pub run : Savedata → Wakedata → M (Option StateTransition)
  pub living_children : Savedata → List StateChild

-- `len(savedata) == 0`.
abbrev pub is_nothing : Savedata → Bool
is_nothing nothing = true
is_nothing _ = false

abbrev pub is_no_wake : Wakedata → Bool
is_no_wake no_wake = true
is_no_wake _ = false

-- An unknown type of child is logged, and nothing else.
unfoldable pub cancel_child : StateChild → M (Unit {0})
cancel_child child =
    if str_eq child.type "isolate"
    then emit (cancelled_isolate child.id)
    else (if str_eq child.type "subflow" then emit (cancelled_subflow child.id) else done tt)

unfoldable pub cancel_each : List StateChild → M (Unit {0})
cancel_each [] = done tt
cancel_each (child ∷ rest) = cancel_child child >> cancel_each rest

unfoldable pub cancel_children : StateLogic → Savedata → M (Unit {0})
cancel_children logic savedata =
    if is_nothing savedata then done tt else cancel_each (logic.living_children savedata)

-- A transform that is nil, "" or "." does nothing.
abbrev pub is_identity : Value → Bool
is_identity null = true
is_identity (text s) = is_empty s || str_eq s "."
is_identity _ = false

unfoldable pub transform_state : Services → Option StateTransition → M (Unit {0})
transform_state services none = done tt
transform_state services (some t) =
    if is_identity t.transform then done tt else transform services t.transform

-- The last three calls of each way in which an instance ends.
unfoldable pub finish : Record → Option Value → M (Unit {0})
finish rec output = do free_resources rec; wake_caller output; close

abbrev pub completed : Record → Value → Record
completed rec output = record rec {
  output = some output;
  ended = true;
  status = if is_empty rec.error_code then "complete" else "failed";
}

-- What follows the write of the output. A failed write leaves the pointer as it was.
unfoldable pub end_instance : Record → Value → Option Failure → M (Unit {0})
end_instance rec output (some e) = finish rec none
end_instance rec output none = do
  put_record (some (completed rec output))
  finish (completed rec output) (some output)

-- The end of an instance: its output is stored.
unfoldable pub complete_instance : M (Unit {0})
complete_instance = do
  i ← this
  rec ← the_record
  answer ← write
  end_instance rec i.state_data answer

unfoldable pub go_on : String → M (Unit {0})
go_on next_state = if is_empty next_state then complete_instance else emit (went_on next_state)

unfoldable pub transition_state : Option StateTransition → String → M (Unit {0})
transition_state none err_code = close
transition_state (some t) err_code = do
  rec ← the_record
  complete_state rec t.next_state err_code false
  go_on t.next_state

-- The error definition "*" stands for ".*".
abbrev pub pattern_of : String → String
pattern_of error = if str_eq error "*" then ".*" else error

unfoldable pub find_catch : Services → String → List ErrorDefinition → Option ErrorDefinition
find_catch services code [] = none
find_catch services code (catch ∷ rest) =
    if services.match_string (pattern_of catch.error) code
    then some catch
    else find_catch services code rest

-- `setStatus`, and the end of the instance.
unfoldable pub fail_instance : String → String → String → M (Unit {0})
fail_instance status code message = do
  set_status status code message
  rec ← the_record
  finish rec none

-- `StoreData("error", cerr)`, whose error is ignored.
abbrev pub forget : Outcome (Unit {0}) → Outcome (Unit {0})
forget panicked = panicked
forget _ = returned tt

abbrev pub ignore : M (Unit {0}) → M (Unit {0})
ignore m w = let (r, w') = m w in (forget r, w')

abbrev pub error_value : String → String → Value
error_value code message = object (field "code" (text code) (field "msg" (text message) end))

unfoldable pub caught : String → String → Option ErrorDefinition → M (Unit {0})
caught code message none = fail_instance "failed" code message
caught code message (some catch) =
    transition_state (some (record { next_state = catch.transition; transform = text "" })) code

unfoldable pub catch_error : Services → StateLogic → String → String → M (Unit {0})
catch_error services logic code message = do
  ignore (store_data "error" (error_value code message))
  caught code message (find_catch services code logic.error_catchers)

unfoldable pub handle : Services → StateLogic → Failure → M (Unit {0})
handle services logic (uncatchable code message) = fail_instance "failed" code message
handle services logic (catchable code message) = catch_error services logic code message
handle services logic (internal e) = fail_instance "crashed" "" "an internal error occurred"
handle services logic (other e) = do rec ← the_record; finish rec none

unfoldable pub cancel_memory : StateLogic → Memory → M (Unit {0})
cancel_memory logic corrupt = done tt
cancel_memory logic (memory saved) = cancel_children logic saved

-- `cancelChildren` of what the instance has saved, unless that cannot be read.
unfoldable pub cancel_saved : StateLogic → M (Unit {0})
cancel_saved logic = do rec ← the_record; cancel_memory logic rec.memory

-- The label `failure`. `setStatus` returns no error (see there), so the jumps back to the label are
-- not taken.
unfoldable pub failure : Services → StateLogic → Failure → M (Unit {0})
failure services logic e = do cancel_saved logic; handle services logic e

unfoldable pub log_state : Services → StateLogic → Savedata → Wakedata → M (Unit {0})
log_state services logic savedata wakedata =
    if is_nothing savedata && (is_no_wake wakedata && not (is_nil logic.log_jq))
    then (do i ← this; x ← jq_one services i.state_data logic.log_jq; emit (user_logged x))
    else done tt

-- The part of `runState` that can jump to `failure`.
unfoldable pub attempt :
    Services → StateLogic → Savedata → Wakedata → Option Failure → M (Option StateTransition)
attempt services logic savedata wakedata (some e) = fail e
attempt services logic savedata wakedata none = do
  log_state services logic savedata wakedata
  t ← logic.run savedata wakedata
  transform_state services t
  done t

abbrev pub resume :
    Services → StateLogic → Outcome (Option StateTransition) × World → Outcome (Unit {0}) × World
resume services logic (returned t, w) = transition_state t "" w
resume services logic (failed e, w) = failure services logic e w
resume services logic (panicked, w) = (panicked, w)

unfoldable pub run_state :
    Services → StateLogic → Savedata → Wakedata → Option Failure → M (Unit {0})
run_state services logic savedata wakedata e w =
    resume services logic (attempt services logic savedata wakedata e w)
