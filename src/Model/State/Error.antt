-- ===== src/Model/State/Error.antt =====
-- pkg/model/state-error.go: `ErrorState`.
use direktiv.Base.{String, is_empty, List, [], new, Result, ◌>>◌, refuse}
use direktiv.Model.Value.{Value}
use direktiv.Model.Common.{StateCommon, common_validate, validate_transform, validate_catches}
use direktiv.Model.Transitions.{Key, TransitionMap, put_some, append_some}

pub record ErrorState : Type 0 where
  pub common : StateCommon
  pub open common use *
  pub error : String
  pub message : String
  pub args : List String
  pub transform : Value
  pub transition : String

-- `ErrorState` leaves the targets of its `Catch` out of both.
unfoldable pub transition_map : ErrorState → TransitionMap
unfolding put_some
transition_map o = put_some Key.transition o.transition []

unfoldable pub get_transitions : ErrorState → List String
unfolding append_some
get_transitions o = append_some o.transition []

unfoldable pub validate : ErrorState → Result (Unit {0})
unfolding common_validate validate_transform validate_catches
validate o = do
  common_validate o.common
  validate_transform o.transform
  refuse (is_empty o.error) (new "error required")
  refuse (is_empty o.message) (new "message required")
