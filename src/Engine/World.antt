-- ===== src/Engine/World.antt =====
-- The state that pkg/direktiv's engine works on: the database record of an instance
-- (ent/schema/workflowinstance.go), the instance in memory (`workflowLogicInstance`, wli.go), and
-- what the code does to the outside, as a list of effects, the latest first.
use direktiv.Base.{ℕ, String, Bool, List, [], ◌∷◌, Option, none, some, Dict}
use direktiv.Model.Value.{ℤ, Value}
use direktiv.Model.Common.{ConsumeEventDefinition}
use direktiv.Varstore.{Row}
use direktiv.Model.Workflow.{Workflow}
use direktiv.Engine.Errors.{Failure}

-- `multiactionTuple` of state-logic.go.
pub record Branch : Type 0 where
  pub id : String
  pub complete : Bool
  pub type : String
  pub attempts : ℕ
  pub results : Value

-- `actionStateSavedata` of state-logic-action.go.
pub record ActionSavedata : Type 0 where
  pub op : String
  pub id : String
  pub attempts : ℕ

-- The bytes that an instance saves while it waits: the JSON text of one of the above, or other
-- bytes, which no decoder of the engine accepts.
pub data Savedata : Type 0 where
  nothing : Savedata
  branches : List Branch → Savedata
  action : ActionSavedata → Savedata
  other_bytes : Savedata

-- The column `memory`: base64 text of the above; `corrupt` is no base64 text.
pub data Memory : Type 0 where
  memory : Savedata → Memory
  corrupt : Memory

-- What an action gives back: bytes that are the JSON text of a value, or other bytes, with their
-- base64 text.
pub data Output : Type 0 where
  json : Value → Output
  raw : String → Output

-- `actionResultPayload` of engine.go.
pub record ActionResultPayload : Type 0 where
  pub action_id : String
  pub error_code : String
  pub error_message : String
  pub output : Output

-- The data of an event: none, bytes that are the JSON text of a value, or other bytes, with their
-- base64 text.
pub data EventData : Type 0 where
  no_data : EventData
  json_data : Value → String → EventData
  other_data : String → EventData

-- `cloudevents.Event` of github.com/cloudevents/sdk-go, as far as it is read.
pub record CloudEvent : Type 0 where
  pub id : String
  pub source : String
  pub type : String
  pub data_content_type : String
  pub content : EventData
  pub extensions : Dict Value

-- The bytes that an instance is woken with.
pub data Wakedata : Type 0 where
  no_wake : Wakedata
  sleep : Wakedata
  result : ActionResultPayload → Wakedata
  retry_action : ActionSavedata → Wakedata
  retry_branch : List Branch → ℕ → Wakedata
  woken_by : List CloudEvent → Wakedata
  unreadable : Wakedata

-- `subflowCaller` of engine.go.
pub record SubflowCaller : Type 0 where
  pub instance_id : String
  pub state : String
  pub step : ℕ
  pub depth : ℕ

-- The column `invokedBy`: empty, the JSON text of a caller, or another text.
pub data InvokedBy : Type 0 where
  nobody : InvokedBy
  caller : SubflowCaller → InvokedBy
  garbled : InvokedBy

-- `ent.WorkflowInstance`, as far as the engine reads and writes it. `ended` says that `endTime` is
-- set.
pub record Record : Type 0 where
  pub instance_id : String
  pub workflow_id : String
  pub invoked_by : InvokedBy
  pub status : String
  pub ended : Bool
  pub flow : List String
  pub output : Option Value
  pub state_data : Value
  pub memory : Memory
  pub attempts : ℕ
  pub error_code : String
  pub error_message : String
  pub controller : String
  pub deadline : ℕ

-- The three values of `metrics.NextTransition`, `metrics.NextEnd` and `metrics.NextRetry`.
pub data Next : Type 0 where
  next_transition next_end next_retry : Next

pub record Metric : Type 0 where
  pub state : String
  pub transition : String
  pub error_code : String
  pub next : Next

-- The names of the timeouts of an instance, "timeout:id:soft" or "timeout:id:soft:n" (and "hard").
pub data TimeoutName : Type 0 where
  unnumbered : TimeoutName
  numbered : ℤ → TimeoutName

pub data Effect : Type 0 where
  measured : Metric → Effect
  user_logged : Value → Effect
  freed : String → Effect
  published : String → Effect
  reported : SubflowCaller → ActionResultPayload → Effect
  cancelled_isolate : String → Effect
  cancelled_subflow : String → Effect
  requested : String → String → Value → Effect
  requested_async : String → String → Value → Effect
  invoked_subflow : String → SubflowCaller → Value → Effect
  scheduled_sleep : String → ℕ → ℕ → Effect
  scheduled_retry : String → ℕ → ℤ → Wakedata → Effect
  cancelled_timeout : Bool → TimeoutName → Effect
  scheduled_timeout : Bool → TimeoutName → ℕ → ℕ → Effect
  cleared_listeners : String → Effect
  listened : List ConsumeEventDefinition → Bool → String → ℕ → Effect
  broadcast : String → CloudEvent → Effect
  went_on : String → Effect

-- `workflowLogicInstance`. `rec` is a pointer, which is nil after a failed write, and `locked` says
-- that `lockConn` is set.
pub record Instance : Type 0 where
  pub id : String
  pub namespace : String
  pub state_data : Value
  pub wf : Workflow
  pub rec : Option Record
  pub step : ℕ
  pub locked : Bool

-- `cancels` is the engine's map of running instances. `writes` holds the answers of the database to
-- the next writes, and of the timer manager to the next timers, `some e` for a failure; once it is
-- empty all succeed. `tick` counts the
-- identifiers that `ksuid.New` has given out. `variables` is the table of pkg/varstore.
pub record World : Type 0 where
  pub instance : Instance
  pub cancels : Dict (Unit {0})
  pub writes : List (Option Failure)
  pub tick : ℕ
  pub variables : List (Row Output)
  pub effects : List Effect

pub data Outcome {ℓ} (A : Type ℓ) : Type ℓ where
  returned : A → Outcome A
  failed : Failure → Outcome A
  panicked : Outcome A

abbrev pub M : Type 0 → Type 0
M A = World → Outcome A × World

abbrev pub pass : {A B : Type 0} → (A → M B) → Outcome A × World → Outcome B × World
pass f (returned a, w) = f a w
pass f (failed e, w) = (failed e, w)
pass f (panicked, w) = (panicked, w)

infixl 5 ◌>>=◌ ◌>>◌
abbrev pub ◌>>=◌ : {A B : Type 0} → M A → (A → M B) → M B
◌>>=◌ m f w = pass f (m w)

abbrev pub ◌>>◌ : {B : Type 0} → M (Unit {0}) → M B → M B
m >> k = m >>= λ _. k

abbrev pub done : {A : Type 0} → A → M A
done a w = (returned a, w)

abbrev pub fail : {A : Type 0} → Failure → M A
fail e w = (failed e, w)

abbrev pub crash : {A : Type 0} → M A
crash w = (panicked, w)

abbrev pub emit : Effect → M (Unit {0})
emit e w = (returned tt, record w { effects = e ∷ w.effects })

-- Reads of the instance, and of the record behind its pointer.
abbrev pub this : M Instance
this w = (returned w.instance, w)

abbrev pub or_crash : {A : Type 0} → Option A → M A
or_crash none = crash
or_crash (some a) = done a

abbrev pub the_record : M Record
the_record w = or_crash w.instance.rec w

abbrev pub put_instance : Instance → M (Unit {0})
put_instance i w = (returned tt, record w { instance = i })

abbrev pub put_record : Option Record → M (Unit {0})
put_record r w = (returned tt, record w { instance = record w.instance { rec = r } })

abbrev pub answer_of : List (Option Failure) → Option Failure
answer_of [] = none
answer_of (a ∷ rest) = a

abbrev pub answers_after : List (Option Failure) → List (Option Failure)
answers_after [] = []
answers_after (a ∷ rest) = rest

-- One database write: its error, if it fails.
abbrev pub write : M (Option Failure)
write w = (returned (answer_of w.writes), record w { writes = answers_after w.writes })
