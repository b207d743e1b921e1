-- ===== src/Model/State/Setter.antt =====
-- pkg/model/state-setter.go: `SetterState`.
use direktiv.Base.{
  String, is_empty, not, List, new, about, at, Result, ◌>>◌, refuse, wrap, for_each,
}
use direktiv.Model.Value.{Value}
use direktiv.Model.Pattern.{match_string, variable_name_regex}
use direktiv.Model.Common.{
  is_empty_text, is_empty_list, StateCommon, common_validate, validate_transform, validate_catches,
}
use direktiv.Model.Transitions.{TransitionMap, single_map, single_list}
use direktiv.Model.State.Getter.{is_variable_scope}

pub record SetterDefinition : Type 0 where
  pub scope : String
  pub key : String
  pub value : Value

unfoldable pub validate_definition : SetterDefinition → Result (Unit {0})
validate_definition o = do
  refuse (is_empty o.scope) (new "scope required")
  refuse (not (is_variable_scope o.scope)) (about "invalid scope" o.scope)
  refuse (is_empty o.key) (new "key required")
  refuse (not (match_string variable_name_regex o.key)) (new "variable key must match regex")
  refuse (is_empty_text o.value) (new "value required")
  validate_transform o.value

pub record SetterState : Type 0 where
  pub common : StateCommon
  pub open common use *
  pub variables : List SetterDefinition
  pub transform : Value
  pub transition : String

unfoldable pub transition_map : SetterState → TransitionMap
unfolding single_map
transition_map o = single_map o.transition o.catch

unfoldable pub get_transitions : SetterState → List String
unfolding single_list
get_transitions o = single_list o.transition o.catch

unfoldable pub validate : SetterState → Result (Unit {0})
unfolding common_validate validate_transform validate_catches validate_definition
validate o = do
  common_validate o.common
  refuse (is_empty_list o.variables) (new "variables required")
  for_each (λ i v. wrap (at "variables is invalid" i) (validate_definition v)) 0 o.variables
  validate_transform o.transform
  validate_catches o.catch
