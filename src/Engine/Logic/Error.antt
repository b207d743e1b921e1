-- ===== src/Engine/Logic/Error.antt =====
-- pkg/direktiv/state-logic-error.go: the error state.
use direktiv.Base.{String, List, [], ◌∷◌, Option, ◌+◌}
use direktiv.Model.Value.{Value, object, text}
use direktiv.Model.State.Error.{ErrorState}
use direktiv.Engine.Services.{Services, seconds}
use direktiv.Engine.Jq.{jq_object}
use direktiv.Engine.Instance.{raise}
use direktiv.Engine.World.{M, Savedata, Wakedata, done, this, ◌>>=◌, ◌>>◌}
use direktiv.Engine.Run.{StateLogic, StateTransition}
use direktiv.Engine.Logic.Noop.{go_to}

-- The arguments of the message, each an object.
unfoldable pub arguments : Services → Value → List String → M (List Value)
arguments services input [] = done []
arguments services input (arg ∷ args) = do
  x ← jq_object services input (text arg)
  xs ← arguments services input args
  done (object x ∷ xs)

-- What is saved and what woke the instance are not looked at.
unfoldable pub run : Services → ErrorState → Savedata → Wakedata → M (Option StateTransition)
run services o savedata wakedata = do
  i ← this
  a ← arguments services i.state_data o.args
  raise o.error (services.sprintf o.message a)
  go_to o.transform o.transition

unfoldable pub logic : Services → ErrorState → StateLogic
logic services o = record {
  id = o.id;
  deadline = services.now + seconds 5;
  error_catchers = o.catch;
  log_jq = o.log;
  run = run services o;
  living_children = λ savedata. [];
}
