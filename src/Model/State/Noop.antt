-- ===== src/Model/State/Noop.antt =====
-- pkg/model/state-noop.go: `NoopState`.
use direktiv.Base.{String, List, Result, ◌>>◌}
use direktiv.Model.Value.{Value}
use direktiv.Model.Common.{StateCommon, common_validate, validate_transform, validate_catches}
use direktiv.Model.Transitions.{TransitionMap, single_map, single_list}

pub record NoopState : Type 0 where
  pub common : StateCommon
  pub open common use *
  pub transform : Value
  pub transition : String

unfoldable pub transition_map : NoopState → TransitionMap
unfolding single_map
transition_map o = single_map o.transition o.catch

unfoldable pub get_transitions : NoopState → List String
unfolding single_list
get_transitions o = single_list o.transition o.catch

unfoldable pub validate : NoopState → Result (Unit {0})
unfolding common_validate validate_transform validate_catches
validate o = do common_validate o.common; validate_transform o.transform; validate_catches o.catch
