-- ===== src/Model/State/Delay.antt =====
-- pkg/model/state-delay.go: `DelayState`.
use direktiv.Base.{String, is_empty, not, List, new, Result, ◌>>◌, refuse}
use direktiv.Model.Value.{Value}
use direktiv.Model.Common.{
  Parsers, StateCommon, common_validate, validate_transform, validate_catches,
}
use direktiv.Model.Transitions.{TransitionMap, single_map, single_list}

pub record DelayState : Type 0 where
  pub common : StateCommon
  pub open common use *
  pub duration : String
  pub transform : Value
  pub transition : String

unfoldable pub transition_map : DelayState → TransitionMap
unfolding single_map
transition_map o = single_map o.transition o.catch

unfoldable pub get_transitions : DelayState → List String
unfolding single_list
get_transitions o = single_list o.transition o.catch

unfoldable pub validate : Parsers → DelayState → Result (Unit {0})
unfolding common_validate validate_transform validate_catches
validate parsers o = do
  common_validate o.common
  validate_transform o.transform
  refuse (is_empty o.duration) (new "duration required")
  refuse (not (parsers.is_iso8601 o.duration)) (new "duration is not a ISO8601 string")
  validate_catches o.catch
