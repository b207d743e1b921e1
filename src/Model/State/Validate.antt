-- ===== src/Model/State/Validate.antt =====
-- pkg/model/state-validate.go: `ValidateState`.
use direktiv.Base.{String, List, new, within, Result, ◌>>◌, refuse, wrap}
use direktiv.Model.Value.{Value}
use direktiv.Model.Common.{
  Parsers, is_nil, StateCommon, common_validate, validate_transform, validate_catches,
  is_json_schema,
}
use direktiv.Model.Transitions.{TransitionMap, single_map, single_list}

pub record ValidateState : Type 0 where
  pub common : StateCommon
  pub open common use *
  pub subject : String
  pub schema : Value
  pub transform : Value
  pub transition : String

unfoldable pub transition_map : ValidateState → TransitionMap
unfolding single_map
transition_map o = single_map o.transition o.catch

unfoldable pub get_transitions : ValidateState → List String
unfolding single_list
get_transitions o = single_list o.transition o.catch

unfoldable pub validate : Parsers → ValidateState → Result (Unit {0})
unfolding common_validate validate_transform validate_catches is_json_schema
validate parsers o = do
  common_validate o.common
  validate_transform o.transform
  refuse (is_nil o.schema) (new "schema required")
  wrap (within "invalid schema") (is_json_schema parsers o.schema)
  validate_catches o.catch
