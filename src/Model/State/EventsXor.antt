-- ===== src/Model/State/EventsXor.antt =====
-- pkg/model/state-events-xor.go: `EventsXorState`.
use direktiv.Base.{ℕ, String, List, [], map, new, at, Result, ◌>>◌, refuse, wrap, for_each}
use direktiv.Model.Value.{Value}
use direktiv.Model.Common.{
  Parsers, is_empty_list, is_bad_duration, ConsumeEventDefinition, StateCommon, common_validate,
  validate_transform, validate_catches, validate_consume_event,
}
use direktiv.Model.Transitions.{Key, TransitionMap, put_all, append_all, catch_targets}

pub record EventConditionDefinition : Type 0 where
  pub event : ConsumeEventDefinition
  pub transform : Value
  pub transition : String

-- The body of the loop over `GetEvents()`.
unfoldable pub validate_event : ℕ → EventConditionDefinition → Result (Unit {0})
unfolding validate_transform validate_consume_event
validate_event i event = do
  wrap (at "event" i) (validate_transform event.transform)
  wrap (at "event is invalid" i) (validate_consume_event event.event)

abbrev pub event_targets : List EventConditionDefinition → List String
event_targets = map (λ e. e.transition)

pub record EventsXorState : Type 0 where
  pub common : StateCommon
  pub open common use *
  pub events : List EventConditionDefinition
  pub timeout : String

unfoldable pub transition_map : EventsXorState → TransitionMap
unfolding put_all
transition_map o =
    put_all Key.events 0 (event_targets o.events) (put_all Key.errors 0 (catch_targets o.catch) [])

unfoldable pub get_transitions : EventsXorState → List String
unfolding append_all
get_transitions o = append_all (event_targets o.events) (append_all (catch_targets o.catch) [])

unfoldable pub validate : Parsers → EventsXorState → Result (Unit {0})
unfolding common_validate validate_transform validate_catches validate_event
validate parsers o = do
  common_validate o.common
  refuse (is_bad_duration parsers o.timeout) (new "timeout is not a ISO8601 string")
  refuse (is_empty_list o.events) (new "atleast one event is required")
  for_each validate_event 0 o.events
  validate_catches o.catch
