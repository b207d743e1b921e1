-- ===== src/Engine/Samples.antt =====
-- Outside services and an instance of the sample workflow, for the tests of the engine.
use direktiv.Base.{
  Option, ℕ, String, str_eq, Bool, true, false, ◌||◌, Option, List, [], ◌∷◌, none, some,
  if◌then◌else◌,
}
use direktiv.Model.Value.{float, pos, Value, null, boolean, text, object, end}
use direktiv.Model.Samples.{sample, common_of}
use direktiv.Model.State.{get_id}
use direktiv.Model.Common.{RetryDefinition}
use direktiv.Engine.Errors.{Failure, catchable}
use direktiv.Engine.Services.{Services, stored_workflow, no_secret}
use direktiv.Engine.World.{
  World, Instance, Record, memory, nothing, InvokedBy, caller, SubflowCaller, Branch,
  ActionResultPayload, json, fail,
}
use direktiv.Engine.Run.{StateLogic}
use direktiv.Engine.Step.{Init}
use direktiv.Jqer.Outcomes.{program, value}
use direktiv.Jqer.Strings.{Text, chars, has_prefix}

-- The program "yes" is true, "no" is false, and any other gives its input back.
abbrev pub answered : Value → Text → Value
answered input command =
    if has_prefix (chars "yes") command
    then boolean true
    else (if has_prefix (chars "no") command then boolean false else input)

-- The schemas `true` and `false` accept everything and nothing.
abbrev pub judged : Value → Option Bool
judged (boolean b) = some b
judged schema = none

abbrev pub services : Services
services = record {
  match_string = λ pattern s. str_eq pattern s || str_eq pattern ".*";
  gojq = record {
    parse = λ command. program (λ input. value (answered input command) ∷ []);
    encode = λ v. "{}";
    reread = λ v. v;
  };
  duration = λ s. some 60;
  scale = λ d m. d;
  now = 1000;
  hostname = "host";
  fresh = λ n. "fresh";
  is_ksuid = λ s. true;
  service_hash = λ namespace workflow fn. some fn;
  base64 = λ s. s;
  secret = λ namespace name. no_secret;
  find_workflow = λ namespace name. stored_workflow true (some sample);
  sprintf = λ format args. format;
  check_schema = λ schema document. judged schema;
  json_size = λ v. 1;
}

abbrev pub parent : ℕ → SubflowCaller
parent depth = record { instance_id = "parent"; state = "call"; step = 1; depth = depth }

abbrev pub row : List String → InvokedBy → Record
row flow invoked_by = record {
  instance_id = "i";
  workflow_id = "w";
  invoked_by = invoked_by;
  status = "pending";
  ended = false;
  flow = flow;
  output = none;
  state_data = object end;
  memory = memory nothing;
  attempts = 0;
  error_code = "";
  error_message = "";
  controller = "";
  deadline = 0;
}

abbrev pub running_instance : Record → ℕ → Instance
running_instance r step = record {
  id = "i";
  namespace = "n";
  state_data = object end;
  wf = sample;
  rec = some r;
  step = step;
  locked = true;
}

abbrev pub world_of : Record → ℕ → World
world_of r step = record {
  instance = running_instance r step;
  cancels = ("i", tt) ∷ [];
  writes = [];
  tick = 0;
  variables = [];
  effects = [];
}

abbrev pub first_row : Record
first_row = row ("first" ∷ []) (caller (parent 0))

abbrev pub first_world : World
first_world = world_of first_row 1

abbrev pub unlocked_world : World
unlocked_world = record first_world {
  instance = record (running_instance first_row 1) { locked = false };
  cancels = [];
}

-- A state whose run raises that error.
abbrev pub raising : Failure → StateLogic
raising e = record {
  id = "first";
  deadline = 5;
  error_catchers = (common_of "first").catch;
  log_jq = null;
  run = λ savedata wakedata. fail e;
  living_children = λ savedata. [];
}

-- A logic for every state.
abbrev pub init : Init
init wf s = some (record (raising (catchable "io" "broken")) { id = get_id s })

abbrev pub branch : String → Bool → Branch
branch id complete = record {
  id = id;
  complete = complete;
  type = "isolate";
  attempts = 0;
  results = null;
}

abbrev pub payload : String → String → ActionResultPayload
payload id code = record {
  action_id = id;
  error_code = code;
  error_message = "";
  output = json (text "out");
}

-- Three attempts at most.
abbrev pub policy : RetryDefinition
policy = record {
  max_attempts = pos 3;
  delay = "PT1M";
  multiplier = float (pos 0) 0;
  codes = "io" ∷ [];
}
