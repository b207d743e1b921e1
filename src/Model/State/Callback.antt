-- ===== src/Model/State/Callback.antt =====
-- pkg/model/state-callback.go: `CallbackState`.
use direktiv.Base.{String, List, Option, new, Result, ◌>>◌, refuse}
use direktiv.Model.Value.{Value}
use direktiv.Model.Common.{
  Parsers, is_nil_pointer, is_bad_duration, ActionDefinition, ConsumeEventDefinition, StateCommon,
  common_validate, validate_transform, validate_catches,
}
use direktiv.Model.Transitions.{TransitionMap, single_map, single_list}

pub record CallbackState : Type 0 where
  pub common : StateCommon
  pub open common use *
  pub action : Option ActionDefinition
  pub event : Option ConsumeEventDefinition
  pub timeout : String
  pub transform : Value
  pub transition : String

unfoldable pub transition_map : CallbackState → TransitionMap
unfolding single_map
transition_map o = single_map o.transition o.catch

unfoldable pub get_transitions : CallbackState → List String
unfolding single_list
get_transitions o = single_list o.transition o.catch

unfoldable pub validate : Parsers → CallbackState → Result (Unit {0})
unfolding common_validate validate_transform validate_catches
validate parsers o = do
  common_validate o.common
  validate_transform o.transform
  refuse (is_nil_pointer o.action) (new "action required")
  refuse (is_nil_pointer o.event) (new "event required")
  refuse (is_bad_duration parsers o.timeout) (new "timeout is not a ISO8601 string")
