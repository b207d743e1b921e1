-- ===== src/Engine/Logic/Variables/Getter.antt =====
-- pkg/direktiv/state-logic-getter.go: the getter state.
use direktiv.Base.{List, [], ◌∷◌, Option, ◌+◌}
use direktiv.Model.Value.{object, Fields, end}
use direktiv.Model.State.Getter.{GetterState, GetterDefinition}
use direktiv.Engine.Services.{Services, seconds}
use direktiv.Engine.Instance.{store_data, set_field}
use direktiv.Engine.World.{
  Instance, Record, M, Savedata, Wakedata, done, this, the_record, ◌>>=◌, ◌>>◌,
}
use direktiv.Engine.Run.{StateLogic, StateTransition}
use direktiv.Engine.Logic.Noop.{go_to, refuse_savedata, refuse_wakedata}
use direktiv.Engine.Logic.Variables.{scope_of, read_variable}

-- The loop, which collects the variables in a map.
unfoldable pub get_variables : Instance → Record → List GetterDefinition → Fields → M Fields
unfolding scope_of read_variable set_field
get_variables i rec [] m = done m
get_variables i rec (v ∷ vs) m = do
  x ← read_variable v.key (scope_of i rec v.scope)
  get_variables i rec vs (set_field v.key x m)

unfoldable pub run : GetterState → Savedata → Wakedata → M (Option StateTransition)
unfolding get_variables
run o savedata wakedata = do
  refuse_savedata savedata
  refuse_wakedata wakedata
  i ← this
  rec ← the_record
  m ← get_variables i rec o.variables end
  store_data "var" (object m)
  go_to o.transform o.transition

unfoldable pub logic : Services → GetterState → StateLogic
logic services o = record {
  id = o.id;
  deadline = services.now + seconds 5;
  error_catchers = o.catch;
  log_jq = o.log;
  run = run o;
  living_children = λ savedata. [];
}
