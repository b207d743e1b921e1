-- ===== src/Engine/Logic/Events.antt =====
-- What the states that wait for events share (pkg/direktiv/state-logic-consume-event.go,
-- state-logic-eventsand.go, state-logic-eventsxor.go), and `listenForEvents`, `clearEventListeners`
-- (engine.go) and `extractEventPayload` (state-logic.go). The entries of a context are taken in the
-- order of their list, as a map has no order.
pub mod Consume
pub mod Listens
pub mod Once
pub mod Stores
pub mod EventsAnd
pub mod EventsXor
mod Tests
use Prim.Native.String.{◌++◌ as join}
use package.text.Mathlib.TextBridge.{of_list}
use direktiv.Base.{
  ℕ, suc, ◌-◌, length, String, str_eq, is_empty, Bool, true, false, not, ◌&&◌, ◌||◌, List, [], ◌∷◌,
  Option, none, some, new, at, about, if◌then◌else◌, Dict,
}
use direktiv.Model.Value.{Value, boolean, text, int}
use direktiv.Model.Common.{ConsumeEventDefinition}
use direktiv.Jqer.Strings.{Text, chars, has_prefix, has_suffix, take, drop}
use direktiv.Engine.Errors.{Failure, catchable, uncatchable, internal, other}
use direktiv.Engine.Services.{Services}
use direktiv.Engine.Jq.{jq_one}
use direktiv.Engine.Instance.{store_data}
use direktiv.Engine.World.{
  World, M, Outcome, returned, failed, panicked, CloudEvent, EventData, no_data, json_data,
  other_data, Wakedata, woken_by, cleared_listeners, listened, done, fail, emit, this, the_record,
  write, ◌>>=◌, ◌>>◌,
}
use direktiv.Engine.Run.{StateTransition}

abbrev pub err_code_event_jq : String
err_code_event_jq = "direktiv.event.jq"

abbrev pub bad_context : String → String → Failure
bad_context k why =
    uncatchable err_code_event_jq
      (join "failed to process event context key '" (join k (join "': " why)))

-- Whatever the query of a context key fails by is reported as an uncatchable error.
abbrev pub report_context : String → Outcome Value × World → Outcome Value × World
report_context k (failed (catchable code message), w) = (failed (bad_context k message), w)
report_context k (failed e, w) = (failed (bad_context k "jq"), w)
report_context k r = r

abbrev pub context_value : Services → Value → String → Value → M Value
context_value services input k (text query) w =
    report_context k (jq_one services input (text query) w)
context_value services input k v w = (failed (bad_context k "not a jq query string"), w)

unfoldable pub event_context : Services → Value → Dict Value → M (Dict Value)
event_context services input [] = done []
event_context services input ((k, v) ∷ rest) = do
  x ← context_value services input k v
  xs ← event_context services input rest
  done ((k, x) ∷ xs)

unfoldable pub prepare_events :
    Services → Value → List ConsumeEventDefinition → M (List ConsumeEventDefinition)
unfolding event_context
prepare_events services input [] = done []
prepare_events services input (e ∷ es) = do
  context ← event_context services input e.context
  rest ← prepare_events services input es
  done (record { type = e.type; context = context } ∷ rest)

-- `clearEventListeners`: the effect is that of `deleteWorkflowEventListenerByInstanceID`, whose
-- error is dropped. The answer stands for that of the whole call, which is an error too where the
-- query does not find exactly one listener of the instance (`Only`); nothing is deleted then.
unfoldable pub clear_event_listeners : M (Unit {0})
clear_event_listeners = do
  rec ← the_record
  answer ← write
  elim answer [ none ↦ emit (cleared_listeners rec.instance_id) | some e ↦ done tt ]

-- A text in the older form of a query, with two braces around it.
abbrev pub is_braced : String → Bool
is_braced s = has_prefix (chars "{{") (chars s) && has_suffix (chars "}}") (chars s)

-- The types of a context value that the switch accepts.
unfoldable pub acceptable : ℕ → String → Value → M Value
acceptable i k (boolean b) = done (boolean b)
acceptable i k (int n) = done (int n)
acceptable i k (text s) = done (text s)
acceptable i k v = fail (other (at "event definition returned an unacceptable type" i (new k)))

abbrev pub plain_error : ℕ → String → Outcome Value × World → Outcome Value × World
plain_error i k (failed e, w) =
    (failed (other (at "failed to execute jq query on event definition" i (new k))), w)
plain_error i k r = r

abbrev pub unbraced : String → String
unbraced s = of_list (drop 2 (take (length (chars s) - 2) (chars s)))

abbrev pub run_braced : Services → Value → ℕ → String → Value → M Value
run_braced services input i k query w = plain_error i k (jq_one services input query w)

unfoldable pub listen_value : Services → Value → ℕ → String → Value → M Value
unfolding acceptable
listen_value services input i k (text s) =
    if is_braced s
    then run_braced services input i k (text (unbraced s)) >>= acceptable i k
    else done (text s)
listen_value services input i k v = done v

unfoldable pub listen_context : Services → Value → ℕ → Dict Value → M (Dict Value)
unfolding listen_value
listen_context services input i [] = done []
listen_context services input i ((k, v) ∷ rest) = do
  x ← listen_value services input i k v
  xs ← listen_context services input i rest
  done ((k, x) ∷ xs)

unfoldable pub transform_events :
    Services → Value → ℕ → List ConsumeEventDefinition → M (List ConsumeEventDefinition)
unfolding listen_context
transform_events services input i [] = done []
transform_events services input i (e ∷ es) = do
  context ← listen_context services input i e.context
  rest ← transform_events services input (suc i) es
  done (record { type = e.type; context = context } ∷ rest)

-- `addWorkflowEventListener`, whose signature is the instance and its step.
unfoldable pub add_listener : List ConsumeEventDefinition → Bool → M (Unit {0})
add_listener events all = do
  i ← this
  answer ← write
  elim answer [ none ↦ emit (listened events all i.id i.step) | some e ↦ fail e ]

-- `listenForEvents`; its first query of the database is answered like a write.
unfoldable pub listen_for_events : Services → List ConsumeEventDefinition → Bool → M (Unit {0})
unfolding transform_events add_listener
listen_for_events services events all = do
  i ← this
  rec ← the_record
  answer ← write
  elim answer [
    | some e ↦ fail e
    | none ↦ transform_events services i.state_data 0 events >>= λ transformed.
        add_listener transformed all
  ]

-- The first part of each of the states: the instance registers for the events, and waits.
unfoldable pub register : Services → List ConsumeEventDefinition → Bool → M (Unit {0})
unfolding prepare_events clear_event_listeners listen_for_events
register services definitions all = do
  i ← this
  events ← prepare_events services i.state_data definitions
  clear_event_listeners
  listen_for_events services events all

unfoldable pub listen : Services → List ConsumeEventDefinition → Bool → M (Option StateTransition)
unfolding register
listen services definitions all = do register services definitions all; done none

-- `json.Unmarshal` of the wake data.
abbrev pub events_of : Wakedata → M (List CloudEvent)
events_of (woken_by events) = done events
events_of _ = fail (other (new "no list of events"))

abbrev pub is_json_type : String → Bool
is_json_type s = str_eq s "application/json" || is_empty s

unfoldable pub payload_of : Bool → EventData → M Value
payload_of is_json no_data = done (text "")
payload_of true (json_data v s) = done v
payload_of true (other_data s) = fail (internal (new "Invalid json payload for event"))
payload_of false (json_data v s) = done (text s)
payload_of false (other_data s) = done (text s)

-- `extractEventPayload`.
abbrev pub extract_event_payload : CloudEvent → M Value
extract_event_payload event = payload_of (is_json_type event.data_content_type) event.content

-- The loop that stores the payloads of the events under their types.
unfoldable pub store_events : List CloudEvent → M (Unit {0})
unfolding payload_of store_data
store_events [] = done tt
store_events (event ∷ events) = do
  x ← extract_event_payload event
  store_data event.type x
  store_events events
