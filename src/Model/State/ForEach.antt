-- ===== src/Model/State/ForEach.antt =====
-- pkg/model/state-foreach.go: `ForEachState`.
use direktiv.Base.{String, List, Option, new, Result, ◌>>◌, refuse}
use direktiv.Model.Value.{Value}
use direktiv.Model.Common.{
  Parsers, is_empty_text, is_nil_pointer, is_bad_duration, ActionDefinition, StateCommon,
  common_validate, validate_transform, validate_catches,
}
use direktiv.Model.Transitions.{TransitionMap, single_map, single_list}

pub record ForEachState : Type 0 where
  pub common : StateCommon
  pub open common use *
  pub array : Value
  pub action : Option ActionDefinition
  pub timeout : String
  pub transform : Value
  pub transition : String

unfoldable pub transition_map : ForEachState → TransitionMap
unfolding single_map
transition_map o = single_map o.transition o.catch

unfoldable pub get_transitions : ForEachState → List String
unfolding single_list
get_transitions o = single_list o.transition o.catch

unfoldable pub validate : Parsers → ForEachState → Result (Unit {0})
unfolding common_validate validate_transform validate_catches
validate parsers o = do
  common_validate o.common
  validate_transform o.transform
  refuse (is_empty_text o.array) (new "array required")
  refuse (is_nil_pointer o.action) (new "action required")
  refuse (is_bad_duration parsers o.timeout) (new "timeout is not a ISO8601 string")
