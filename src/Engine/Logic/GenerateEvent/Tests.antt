-- ===== src/Engine/Logic/GenerateEvent/Tests.antt =====
-- The theorem on generated events, at a sample event.
use direktiv.Base.{some, none, [], ◌∷◌}
use direktiv.Model.Value.{text, null}
use direktiv.Model.State.GenerateEvent.{GenerateEventState, GenerateEventDefinition}
use direktiv.Model.Samples.{common_of}
use direktiv.Engine.World.{other_data}
use direktiv.Engine.Logic.GenerateEvent.{EventCodec}

abbrev codec : EventCodec
codec = record {
  json_base64 = λ x. "e30=";
  decoded = λ s. other_data s;
  extension = λ k v. some (k, v);
  marshal_error = λ event. none;
}

abbrev definition : GenerateEventDefinition
definition = record {
  type = "done";
  source = "here";
  data_value = text "jq(.)";
  data_content_type = "";
  context = ("key", text "k") ∷ [];
}

abbrev generate : GenerateEventState
generate = record {
  common = common_of "g";
  event = some definition;
  transform = null;
  transition = "last";
}
