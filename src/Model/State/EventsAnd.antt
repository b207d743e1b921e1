-- ===== src/Model/State/EventsAnd.antt =====
-- pkg/model/state-events-and.go: `EventsAndState`.
use direktiv.Base.{String, List, new, at, Result, ◌>>◌, refuse, wrap, for_each}
use direktiv.Model.Value.{Value}
use direktiv.Model.Common.{
  Parsers, is_empty_list, is_bad_duration, ConsumeEventDefinition, StateCommon, common_validate,
  validate_transform, validate_catches, validate_consume_event,
}
use direktiv.Model.Transitions.{TransitionMap, single_map, single_list}

pub record EventsAndState : Type 0 where
  pub common : StateCommon
  pub open common use *
  pub events : List ConsumeEventDefinition
  pub timeout : String
  pub transform : Value
  pub transition : String

unfoldable pub transition_map : EventsAndState → TransitionMap
unfolding single_map
transition_map o = single_map o.transition o.catch

unfoldable pub get_transitions : EventsAndState → List String
unfolding single_list
get_transitions o = single_list o.transition o.catch

unfoldable pub validate : Parsers → EventsAndState → Result (Unit {0})
unfolding common_validate validate_transform validate_catches validate_consume_event
validate parsers o = do
  common_validate o.common
  validate_transform o.transform
  refuse (is_bad_duration parsers o.timeout) (new "timeout is not a ISO8601 string")
  refuse (is_empty_list o.events) (new "atleast one event is required")
  for_each (λ i event. wrap (at "event is invalid" i) (validate_consume_event event)) 0 o.events
  validate_catches o.catch
