-- ===== src/Model/State/Switch.antt =====
-- pkg/model/state-switch.go: `SwitchState`.
use direktiv.Base.{String, List, [], map, new, within, at, Result, ◌>>◌, refuse, wrap, for_each}
use direktiv.Model.Value.{Value}
use direktiv.Model.Common.{
  is_empty_text, is_empty_list, StateCommon, common_validate, validate_transform, validate_catches,
}
use direktiv.Model.Transitions.{
  Key, TransitionMap, put_some, put_all, append_some, append_all, catch_targets,
}

pub record SwitchConditionDefinition : Type 0 where
  pub condition : Value
  pub transform : Value
  pub transition : String

unfoldable pub validate_condition : SwitchConditionDefinition → Result (Unit {0})
unfolding validate_transform
validate_condition o = do
  refuse (is_empty_text o.condition) (new "condition required")
  validate_transform o.transform

abbrev pub condition_targets : List SwitchConditionDefinition → List String
condition_targets = map (λ c. c.transition)

pub record SwitchState : Type 0 where
  pub common : StateCommon
  pub open common use *
  pub conditions : List SwitchConditionDefinition
  pub default_transform : Value
  pub default_transition : String

unfoldable pub transition_map : SwitchState → TransitionMap
unfolding put_all put_some
transition_map o = put_all Key.conditions 0 (condition_targets o.conditions) (
    put_all Key.errors 0 (catch_targets o.catch)
      (put_some Key.default_transition o.default_transition []))

unfoldable pub get_transitions : SwitchState → List String
unfolding append_all append_some
get_transitions o =
    append_all (condition_targets o.conditions)
      (append_all (catch_targets o.catch) (append_some o.default_transition []))

unfoldable pub validate : SwitchState → Result (Unit {0})
unfolding common_validate validate_transform validate_catches validate_condition
validate o = do
  common_validate o.common
  wrap (within "default transform") (validate_transform o.default_transform)
  refuse (is_empty_list o.conditions) (new "conditions required")
  for_each (λ i c. wrap (at "conditions is invalid" i) (validate_condition c)) 0 o.conditions
  validate_catches o.catch
