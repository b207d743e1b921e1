-- ===== src/Model/State/Action.antt =====
-- pkg/model/state-action.go: `ActionState`.
use direktiv.Base.{String, Bool, List, Option, new, Result, ◌>>◌, refuse}
use direktiv.Model.Value.{Value}
use direktiv.Model.Common.{
  Parsers, is_nil_pointer, is_bad_duration, ActionDefinition, StateCommon, common_validate,
  validate_transform, validate_catches,
}
use direktiv.Model.Transitions.{TransitionMap, single_map, single_list}

pub record ActionState : Type 0 where
  pub common : StateCommon
  pub open common use *
  pub action : Option ActionDefinition
  pub async : Bool
  pub timeout : String
  pub transform : Value
  pub transition : String

unfoldable pub transition_map : ActionState → TransitionMap
unfolding single_map
transition_map o = single_map o.transition o.catch

unfoldable pub get_transitions : ActionState → List String
unfolding single_list
get_transitions o = single_list o.transition o.catch

unfoldable pub validate : Parsers → ActionState → Result (Unit {0})
unfolding common_validate validate_transform validate_catches
validate parsers o = do
  common_validate o.common
  refuse (is_nil_pointer o.action) (new "action required")
  refuse (is_bad_duration parsers o.timeout) (new "timeout is not a ISO8601 string")
  validate_transform o.transform
  validate_catches o.catch
