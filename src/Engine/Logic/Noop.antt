-- ===== src/Engine/Logic/Noop.antt =====
-- The noop state of pkg/direktiv/state-logic.go, and what the states share.
use direktiv.Base.{String, [], Option, some, new, ◌+◌}
use direktiv.Model.Value.{Value}
use direktiv.Model.State.Noop.{NoopState}
use direktiv.Engine.Errors.{internal}
use direktiv.Engine.Services.{Services, seconds}
use direktiv.Engine.World.{M, Savedata, nothing, Wakedata, no_wake, done, fail, ◌>>◌}
use direktiv.Engine.Run.{StateLogic, StateTransition}

abbrev pub go_to : Value → String → M (Option StateTransition)
go_to transform next_state = done (some (record { next_state = next_state; transform = transform }))

-- `len(savedata) != 0` and `len(wakedata) != 0`.
unfoldable pub refuse_savedata : Savedata → M (Unit {0})
refuse_savedata nothing = done tt
refuse_savedata _ = fail (internal (new "got unexpected savedata"))

unfoldable pub refuse_wakedata : Wakedata → M (Unit {0})
refuse_wakedata no_wake = done tt
refuse_wakedata _ = fail (internal (new "got unexpected wakedata"))

unfoldable pub run : NoopState → Savedata → Wakedata → M (Option StateTransition)
run o savedata wakedata = do
  refuse_savedata savedata
  refuse_wakedata wakedata
  go_to o.transform o.transition

unfoldable pub logic : Services → NoopState → StateLogic
logic services o = record {
  id = o.id;
  deadline = services.now + seconds 5;
  error_catchers = o.catch;
  log_jq = o.log;
  run = run o;
  living_children = λ savedata. [];
}
