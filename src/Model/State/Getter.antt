-- ===== src/Model/State/Getter.antt =====
-- pkg/model/state-getter.go: `GetterState`.
use direktiv.Base.{
  String, str_eq, is_empty, Bool, not, ◌||◌, List, new, about, at, Result, ◌>>◌, refuse, wrap,
  for_each,
}
use direktiv.Model.Value.{Value}
use direktiv.Model.Pattern.{match_string, variable_name_regex}
use direktiv.Model.Common.{
  is_empty_list, StateCommon, common_validate, validate_transform, validate_catches,
}
use direktiv.Model.Transitions.{TransitionMap, single_map, single_list}

pub record GetterDefinition : Type 0 where
  pub scope : String
  pub key : String

abbrev pub is_variable_scope : String → Bool
is_variable_scope s = str_eq s "instance" || (str_eq s "workflow" || str_eq s "namespace")

unfoldable pub validate_definition : GetterDefinition → Result (Unit {0})
validate_definition o = do
  refuse (is_empty o.scope) (new "scope required")
  refuse (not (is_variable_scope o.scope)) (about "invalid scope" o.scope)
  refuse (is_empty o.key) (new "key required")
  refuse (not (match_string variable_name_regex o.key)) (new "variable key must match regex")

pub record GetterState : Type 0 where
  pub common : StateCommon
  pub open common use *
  pub variables : List GetterDefinition
  pub transform : Value
  pub transition : String

unfoldable pub transition_map : GetterState → TransitionMap
unfolding single_map
transition_map o = single_map o.transition o.catch

unfoldable pub get_transitions : GetterState → List String
unfolding single_list
get_transitions o = single_list o.transition o.catch

unfoldable pub validate : GetterState → Result (Unit {0})
unfolding common_validate validate_transform validate_catches validate_definition
validate o = do
  common_validate o.common
  refuse (is_empty_list o.variables) (new "variables required")
  for_each (λ i v. wrap (at "variables is invalid" i) (validate_definition v)) 0 o.variables
  validate_transform o.transform
  validate_catches o.catch
