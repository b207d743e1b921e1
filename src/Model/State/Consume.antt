-- ===== src/Model/State/Consume.antt =====
-- pkg/model/state-consume.go: `ConsumeEventState`.
use direktiv.Base.{String, List, Option, new, Result, ◌>>◌, refuse}
use direktiv.Model.Value.{Value}
use direktiv.Model.Common.{
  is_nil_pointer, ConsumeEventDefinition, StateCommon, common_validate, validate_transform,
  validate_catches,
}
use direktiv.Model.Transitions.{TransitionMap, single_map, single_list}

pub record ConsumeEventState : Type 0 where
  pub common : StateCommon
  pub open common use *
  pub event : Option ConsumeEventDefinition
  pub timeout : String
  pub transform : Value
  pub transition : String

unfoldable pub transition_map : ConsumeEventState → TransitionMap
unfolding single_map
transition_map o = single_map o.transition o.catch

unfoldable pub get_transitions : ConsumeEventState → List String
unfolding single_list
get_transitions o = single_list o.transition o.catch

unfoldable pub validate : ConsumeEventState → Result (Unit {0})
unfolding common_validate validate_transform validate_catches
validate o = do
  common_validate o.common
  validate_transform o.transform
  refuse (is_nil_pointer o.event) (new "event required")
  validate_catches o.catch
