-- ===== src/Engine/Logic/Validate.antt =====
-- pkg/direktiv/state-logic-validate.go: the validate state.
pub mod Passes
mod Tests
use direktiv.Base.{
  String, is_empty, Bool, true, false, [], Option, none, some, new, ◌+◌, if◌then◌else◌,
}
use direktiv.Model.Value.{Value, text, object}
use direktiv.Model.State.Validate.{ValidateState}
use direktiv.Engine.Errors.{internal, catchable}
use direktiv.Engine.Services.{Services, seconds}
use direktiv.Engine.Jq.{jq_object}
use direktiv.Engine.World.{M, Savedata, Wakedata, fail, this, ◌>>=◌, ◌>>◌}
use direktiv.Engine.Run.{StateLogic, StateTransition}
use direktiv.Engine.Logic.Noop.{go_to, refuse_savedata, refuse_wakedata}

unfoldable pub subject_query : ValidateState → String
subject_query o = if is_empty o.subject then "jq(.)" else o.subject

-- The error that the message prints is the nil of the call before it.
abbrev pub schema_failed : String
schema_failed = "subject failed its JSONSchema validation: <nil>"

-- What follows from the answer of the schema.
unfoldable pub judge : ValidateState → Option Bool → M (Option StateTransition)
judge o none = fail (internal (new "bad schema"))
judge o (some false) = fail (catchable "direktiv.schema.failed" schema_failed)
judge o (some true) = go_to o.transform o.transition

-- A schema and a subject that were decoded can always be encoded.
unfoldable pub run : Services → ValidateState → Savedata → Wakedata → M (Option StateTransition)
run services o savedata wakedata = do
  refuse_savedata savedata
  refuse_wakedata wakedata
  i ← this
  subject ← jq_object services i.state_data (text (subject_query o))
  judge o (services.check_schema o.schema (object subject))

unfoldable pub logic : Services → ValidateState → StateLogic
logic services o = record {
  id = o.id;
  deadline = services.now + seconds 5;
  error_catchers = o.catch;
  log_jq = o.log;
  run = run services o;
  living_children = λ savedata. [];
}
