-- ===== src/Model/State/GenerateEvent.antt =====
-- pkg/model/state-generate-event.go: `GenerateEventState`.
use direktiv.Base.{String, List, Option, new, Result, ◌>>◌, refuse}
use direktiv.Model.Value.{Value}
use direktiv.Model.Common.{
  is_nil_pointer, StateCommon, common_validate, validate_transform, validate_catches,
}
use direktiv.Model.Transitions.{TransitionMap, single_map, single_list}

pub record GenerateEventDefinition : Type 0 where
  pub type : String
  pub source : String
  pub data_value : Value
  pub data_content_type : String
  pub context : List (String × Value)

pub record GenerateEventState : Type 0 where
  pub common : StateCommon
  pub open common use *
  pub event : Option GenerateEventDefinition
  pub transform : Value
  pub transition : String

unfoldable pub transition_map : GenerateEventState → TransitionMap
unfolding single_map
transition_map o = single_map o.transition o.catch

unfoldable pub get_transitions : GenerateEventState → List String
unfolding single_list
get_transitions o = single_list o.transition o.catch

unfoldable pub validate : GenerateEventState → Result (Unit {0})
unfolding common_validate validate_transform validate_catches
validate o = do
  common_validate o.common
  validate_transform o.transform
  refuse (is_nil_pointer o.event) (new "event required")
  validate_catches o.catch
