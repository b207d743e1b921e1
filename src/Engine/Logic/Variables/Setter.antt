-- ===== src/Engine/Logic/Variables/Setter.antt =====
-- pkg/direktiv/state-logic-setter.go: the setter state.
use direktiv.Base.{List, [], ◌∷◌, Option, ◌+◌}
use direktiv.Model.State.Setter.{SetterState, SetterDefinition}
use direktiv.Engine.Services.{Services, seconds}
use direktiv.Engine.Jq.{jq_one}
use direktiv.Engine.World.{
  Instance, Record, M, Savedata, Wakedata, done, this, the_record, ◌>>=◌, ◌>>◌,
}
use direktiv.Engine.Run.{StateLogic, StateTransition}
use direktiv.Engine.Logic.Noop.{go_to, refuse_savedata, refuse_wakedata}
use direktiv.Engine.Logic.Variables.{scope_of, write_variable}

-- The loop: a variable that is written stays so if a later one fails.
unfoldable pub set_variables : Services → Instance → Record → List SetterDefinition → M (Unit {0})
unfolding scope_of write_variable
set_variables services i rec [] = done tt
set_variables services i rec (v ∷ vs) = do
  x ← jq_one services i.state_data v.value
  write_variable services v.key (scope_of i rec v.scope) x
  set_variables services i rec vs

unfoldable pub run : Services → SetterState → Savedata → Wakedata → M (Option StateTransition)
unfolding set_variables
run services o savedata wakedata = do
  refuse_savedata savedata
  refuse_wakedata wakedata
  i ← this
  rec ← the_record
  set_variables services i rec o.variables
  go_to o.transform o.transition

unfoldable pub logic : Services → SetterState → StateLogic
logic services o = record {
  id = o.id;
  deadline = services.now + seconds 5;
  error_catchers = o.catch;
  log_jq = o.log;
  run = run services o;
  living_children = λ savedata. [];
}
