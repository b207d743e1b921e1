-- ===== src/Model/State/Parallel.antt =====
-- pkg/model/state-parallel.go: `ParallelState`.
use direktiv.Base.{ℕ, String, List, new, at, Result, ◌>>◌, refuse, wrap, for_each}
use direktiv.Model.Value.{Value}
use direktiv.Model.Common.{
  Parsers, is_empty_list, is_bad_duration, ActionDefinition, StateCommon, common_validate,
  validate_transform, validate_catches, validate_action,
}
use direktiv.Model.Transitions.{TransitionMap, single_map, single_list}

pub record ParallelState : Type 0 where
  pub common : StateCommon
  pub open common use *
  pub actions : List ActionDefinition
  pub mode : ℕ
  pub timeout : String
  pub transform : Value
  pub transition : String

unfoldable pub transition_map : ParallelState → TransitionMap
unfolding single_map
transition_map o = single_map o.transition o.catch

unfoldable pub get_transitions : ParallelState → List String
unfolding single_list
get_transitions o = single_list o.transition o.catch

unfoldable pub validate : Parsers → ParallelState → Result (Unit {0})
unfolding common_validate validate_transform validate_catches validate_action
validate parsers o = do
  common_validate o.common
  validate_transform o.transform
  refuse (is_empty_list o.actions) (new "actions required")
  for_each (λ i action. wrap (at "action is invalid" i) (validate_action parsers action)) 0
      o.actions
  refuse (is_bad_duration parsers o.timeout) (new "timeout is not a ISO8601 string")
  validate_catches o.catch
