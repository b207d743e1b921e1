-- ===== src/Engine/Logic/GenerateEvent.antt =====
-- pkg/direktiv/state-logic-generate-event.go: the state that generates an event.
pub mod Payload
mod Tests
use direktiv.Base.{
  String, str_eq, is_empty, Bool, true, false, ◌||◌, List, [], ◌∷◌, Option, none, some, ◌+◌,
  if◌then◌else◌, Dict, insert,
}
use direktiv.Model.Value.{Value, text}
use direktiv.Model.State.GenerateEvent.{GenerateEventState, GenerateEventDefinition}
use direktiv.Engine.Errors.{Failure}
use direktiv.Engine.Services.{Services, seconds}
use direktiv.Engine.Jq.{jq_one}
use direktiv.Engine.Action.{next_id}
use direktiv.Engine.World.{
  M, CloudEvent, EventData, json_data, broadcast, Savedata, Wakedata, or_crash, done, fail, emit,
  this, write, ◌>>=◌, ◌>>◌,
}
use direktiv.Engine.Run.{StateLogic, StateTransition}
use direktiv.Engine.Logic.Noop.{go_to, refuse_savedata, refuse_wakedata}
use direktiv.Engine.Logic.Events.{is_json_type}
use direktiv.Engine.Logic.Variables.{reread}

-- `json_base64 x`: the base64 text of the JSON text of x. `decoded s`: the bytes that
-- `base64.StdEncoding.DecodeString` returns, which are those before the first fault if s is no
-- base64 text. Of github.com/cloudevents/sdk-go: `extension k v`, the entry that `SetExtension`
-- makes, none for an error, and `marshal_error`, the error of `MarshalJSON`.
pub record EventCodec : Type 0 where
  pub json_base64 : Value → String
  pub decoded : String → EventData
  pub extension : String → Value → Option (String × Value)
  pub marshal_error : CloudEvent → Option Failure

abbrev pub sent : Option Failure → String → CloudEvent → M (Unit {0})
sent (some e) namespace event = fail e
sent none namespace event = emit (broadcast namespace event)

-- What follows the answer of `MarshalJSON`.
unfoldable pub encoded : Option Failure → CloudEvent → M (Unit {0})
encoded (some e) event = fail e
encoded none event = this >>= λ i. write >>= λ answer. sent answer i.namespace event

module _ (codec : EventCodec) where
  abbrev as_json : Value → String × EventData
  as_json x = ("application/json", json_data (reread x) (codec.json_base64 x))

  -- The content type and the data. The slice that `DecodeString` returns is never nil, so a text
  -- that is no base64 text is not encoded as JSON after all.
  unfoldable pub event_data : String → Value → String × EventData
  unfolding reread
  event_data form (text s) = if is_json_type form then as_json (text s) else (form, codec.decoded s)
  event_data form x = as_json x

  abbrev pub add_extension : Option (String × Value) → Dict Value → Dict Value
  add_extension none m = m
  add_extension (some (k, v)) m = insert k v m

  -- The loop over the context. An extension that is refused is logged.
  unfoldable pub set_extensions : Dict Value → Dict Value → Dict Value
  unfolding insert
  set_extensions [] m = m
  set_extensions ((k, v) ∷ rest) m = set_extensions rest (add_extension (codec.extension k v) m)

  unfoldable pub new_event : GenerateEventDefinition → String → Value → CloudEvent
  unfolding event_data set_extensions
  new_event definition id x =
      let (form, content) = event_data definition.data_content_type x in
      record {
        id = id;
        source = definition.source;
        type = definition.type;
        data_content_type = form;
        content = content;
        extensions = set_extensions definition.context [];
      }

  -- `BroadcastEvent` of the ingress service, which can fail.
  unfoldable pub broadcast_event : CloudEvent → M (Unit {0})
  unfolding encoded
  broadcast_event event = encoded (codec.marshal_error event) event

  unfoldable pub run :
      Services → GenerateEventState → Savedata → Wakedata → M (Option StateTransition)
  unfolding new_event broadcast_event
  run services o savedata wakedata = do
    refuse_savedata savedata
    refuse_wakedata wakedata
    i ← this
    id ← next_id services
    definition ← or_crash o.event
    x ← jq_one services i.state_data definition.data_value
    broadcast_event (new_event definition id x)
    go_to o.transform o.transition

  unfoldable pub logic : Services → GenerateEventState → StateLogic
  logic services o = record {
    id = o.id;
    deadline = services.now + seconds 5;
    error_catchers = o.catch;
    log_jq = o.log;
    run = run services o;
    living_children = λ savedata. [];
  }
