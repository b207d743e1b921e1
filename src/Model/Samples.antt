-- ===== src/Model/Samples.antt =====
-- A small workflow, and what its tests and those of the engine share.
use direktiv.Base.{String, true, false, [], ◌∷◌, none, some}
use direktiv.Model.Value.{null, text, pos}
use direktiv.Model.Common.{Parsers, StateCommon, ActionDefinition, FunctionDefinition}
use direktiv.Model.StateType
use direktiv.Model.State.{noop_state, parallel_state, switch_state}
use direktiv.Model.State.Noop.{NoopState}
use direktiv.Model.State.Parallel.{ParallelState}
use direktiv.Model.State.Switch.{SwitchState, SwitchConditionDefinition}
use direktiv.Model.Start.{default_start}
use direktiv.Model.Workflow.{Workflow}
use direktiv.Model.StartType

-- Every duration and every schema is good.
abbrev pub lenient : Parsers
lenient = record { is_iso8601 = λ s. true; json_schema_error = λ v. none }

abbrev pub common_of : String → StateCommon
common_of id = record {
  id = id;
  type = StateType.noop;
  log = null;
  catch =
      record { error = "io"; transition = "last" }
      ∷ record { error = "*"; transition = "first" }
      ∷ [];
}

abbrev pub noop_of : String → String → NoopState
noop_of id transition = record { common = common_of id; transform = null; transition = transition }

abbrev pub action_of : String → ActionDefinition
action_of fn = record { function = fn; workflow = ""; input = null; secrets = []; retries = none }

abbrev pub parallel_of : ParallelState
parallel_of = record {
  common = record { id = "both"; type = StateType.parallel; log = null; catch = [] };
  actions = action_of "fetch" ∷ action_of "fetch" ∷ [];
  mode = 0;
  timeout = "";
  transform = null;
  transition = "last";
}

abbrev pub condition_of : String → String → SwitchConditionDefinition
condition_of query target = record { condition = text query; transform = null; transition = target }

abbrev pub switch_of : SwitchState
switch_of = record {
  common = record { id = "pick"; type = StateType.switch; log = null; catch = [] };
  conditions =
      condition_of "jq(no)" "first"
      ∷ condition_of "jq(yes)" "both"
      ∷ condition_of "jq(yes)" "last"
      ∷ [];
  default_transform = null;
  default_transition = "last";
}

abbrev pub fetch : FunctionDefinition
fetch = record { id = "fetch"; image = "img"; size = 0; cmd = ""; scale = pos 0; files = [] }

abbrev pub sample : Workflow
sample = record {
  id = "sample";
  name = "";
  description = "";
  version = "";
  exclusive = false;
  functions = fetch ∷ [];
  schemas = [];
  states =
      noop_state (noop_of "first" "pick")
      ∷ switch_state switch_of
      ∷ parallel_state parallel_of
      ∷ noop_state (noop_of "last" "")
      ∷ [];
  timeouts = none;
  start = some (default_start (record { type = StartType.default_start; state = "first" }));
}
