-- ===== src/Engine/Logic/Switch.antt =====
-- pkg/direktiv/state-logic-switch.go: the switch state.
pub mod First
use direktiv.Base.{
  ℕ, zero, suc, String, is_empty, Bool, true, false, not, List, [], ◌∷◌, Option, new, ◌+◌, at,
  if◌then◌else◌,
}
use direktiv.Model.Value.{
  Value, null, boolean, text, int, float, array, object, nil, cons, end, field, pos,
}
use direktiv.Model.Common.{is_zero}
use direktiv.Model.State.Switch.{SwitchState, SwitchConditionDefinition}
use direktiv.Engine.Errors.{Failure, internal}
use direktiv.Engine.Services.{Services, seconds}
use direktiv.Engine.Jq.{jq_one}
use direktiv.Engine.World.{
  M, Outcome, returned, failed, panicked, World, Savedata, Wakedata, done, fail, this, ◌>>=◌, ◌>>◌,
}
use direktiv.Engine.Run.{StateLogic, StateTransition}
use direktiv.Engine.Logic.Noop.{go_to, refuse_savedata, refuse_wakedata}

unfoldable pub truth : Value → Bool
truth null = false
truth (boolean b) = b
truth (text s) = not (is_empty s)
truth (int n) = not (is_zero n)
truth (float m e) = not (is_zero m)
truth (array nil) = false
truth (array (cons x xs)) = true
truth (object end) = false
truth (object (field k v m)) = true

-- The error of a condition that cannot be run, whatever it was, is an internal error.
abbrev pub not_run : ℕ → Outcome Value → Outcome Value
not_run i (failed e) = failed (internal (at "switch condition failed to run" i (new "jq")))
not_run i r = r

abbrev pub run_condition : Services → Value → ℕ → Value → M Value
run_condition services input i condition w =
    let (r, w') = jq_one services input condition w in (not_run i r, w')

unfoldable pub choose :
    Services → SwitchState → Value → ℕ → List SwitchConditionDefinition → M (Option StateTransition)
choose services o input i [] = go_to o.default_transform o.default_transition
choose services o input i (c ∷ cs) = do
  x ← run_condition services input i c.condition
  if truth x then go_to c.transform c.transition else choose services o input (suc i) cs

unfoldable pub run : Services → SwitchState → Savedata → Wakedata → M (Option StateTransition)
run services o savedata wakedata = do
  refuse_savedata savedata
  refuse_wakedata wakedata
  i ← this
  choose services o i.state_data 0 o.conditions

unfoldable pub logic : Services → SwitchState → StateLogic
logic services o = record {
  id = o.id;
  deadline = services.now + seconds 5;
  error_catchers = o.catch;
  log_jq = o.log;
  run = run services o;
  living_children = λ savedata. [];
}
