-- ===== src/Model/Workflow.antt =====
-- pkg/model/workflow.go: the workflow, its validation and the lookups that the engine makes.
pub mod Collect
pub mod Sound
pub mod Total
pub mod Lookup
use direktiv.Base.{
  ℕ, suc, ◌==◌, String, str_eq, is_empty, Bool, true, false, not, ◌&&◌, List, [], ◌∷◌, map, Option,
  none, some, Error, new, about, within, at, Result, ok, err, panic, ◌>>=◌, ◌>>◌, refuse, wrap,
  deref, for_each, if◌then◌else◌, Dict, lookup, insert, has,
}
use direktiv.Model.Pattern.{match_string, workflow_id_regex}
use direktiv.Model.Common.{
  Parsers, ActionDefinition, FunctionDefinition, SchemaDefinition, TimeoutDefinition,
  validate_function, validate_schema, validate_timeout,
}
use direktiv.Model.StateType
use direktiv.Model.Transitions.{Key, TransitionMap}
use direktiv.Model.State.{
  State, get_id, get_type, transition_map, action_state, for_each_state, parallel_state,
}
use direktiv.Model.State.Action.{ActionState}
use direktiv.Model.State.ForEach.{ForEachState}
use direktiv.Model.State.Parallel.{ParallelState}
use direktiv.Model.Start.{Start, get_state}

pub record Workflow : Type 0 where
  pub id : String
  pub name : String
  pub description : String
  pub version : String
  pub exclusive : Bool
  pub functions : List FunctionDefinition
  pub schemas : List SchemaDefinition
  pub states : List State
  pub timeouts : Option TimeoutDefinition
  pub start : Option Start

-- The loop of `getStatesMap` and `getFunctionMap`: an identifier that is there already is an error.
unfoldable pub collect : {A : Type 0} → (A → String) → String → List A → Dict A → Result (Dict A)
collect key kind [] m = ok m
collect key kind (x ∷ xs) m =
    refuse (has (key x) m) (about kind (key x)) >> collect key kind xs (insert (key x) x m)

unfoldable pub checked_states_map : Workflow → Result (Dict State)
checked_states_map o = collect get_id "state id is used in more than one state" o.states []

unfoldable pub get_function_map : Workflow → Result (Dict FunctionDefinition)
get_function_map o =
    collect (λ f. f.id) "function id is used in more than one function" o.functions []

-- `GetStatesMap`: a later state replaces an earlier one.
unfoldable pub insert_states : List State → Dict State → Dict State
insert_states [] m = m
insert_states (s ∷ ss) m = insert_states ss (insert (get_id s) s m)

unfoldable pub get_states_map : Workflow → Dict State
get_states_map o = insert_states o.states []

unfoldable pub find_function : String → List FunctionDefinition → Result FunctionDefinition
find_function id [] = err (about "function not defined" id)
find_function id (fn ∷ fns) = if str_eq fn.id id then ok fn else find_function id fns

unfoldable pub get_function : Workflow → String → Result FunctionDefinition
get_function o id = find_function id o.functions

unfoldable pub regex_validate_id : Workflow → Result (Unit {0})
regex_validate_id o = do
  refuse (is_empty o.id) (new "workflow id required")
  refuse (not (match_string workflow_id_regex o.id)) (new "workflow ID must match regex")

-- `state.(*ActionState)` and the like panic at another type.
abbrev pub as_action : State → Option ActionState
as_action (action_state o) = some o
as_action _ = none

abbrev pub as_parallel : State → Option ParallelState
as_parallel (parallel_state o) = some o
as_parallel _ = none

abbrev pub as_for_each : State → Option ForEachState
as_for_each (for_each_state o) = some o
as_for_each _ = none

-- `fActions`: the functions that the actions of a state name.
unfoldable pub action_functions : State → Result (List String)
action_functions s =
    if get_type s == StateType.action
    then (do o ← deref (as_action s); a ← deref o.action; ok (a.function ∷ []))
    else (if get_type s == StateType.parallel
        then (do o ← deref (as_parallel s); ok (map (λ a. a.function) o.actions))
        else (if get_type s == StateType.for_each
            then (do o ← deref (as_for_each s); a ← deref o.action; ok (a.function ∷ []))
            else ok []))

unfoldable pub check_transitions : Dict State → ℕ → TransitionMap → Result (Unit {0})
check_transitions states i [] = ok tt
check_transitions states i ((key, t) ∷ m) =
    refuse (not (has t states)) (at "workflow state" i (about "transition does not exist" t))
    >> check_transitions states i m

unfoldable pub check_functions : Dict FunctionDefinition → ℕ → List String → Result (Unit {0})
check_functions functions i [] = ok tt
check_functions functions i (f ∷ fs) =
    refuse (not (is_empty f) && not (has f functions))
      (at "workflow state" i (about "actions function does not exist" f))
    >> check_functions functions i fs

-- The body of the loop over the states.
unfoldable pub check_state : Dict State → Dict FunctionDefinition → ℕ → State → Result (Unit {0})
check_state states functions i s = do
  check_transitions states i (transition_map s)
  names ← action_functions s
  check_functions functions i names

unfoldable pub check_start : Dict State → Option Start → Result (Unit {0})
check_start states none = ok tt
check_start states (some start) =
    refuse (not (is_empty (get_state start)) && not (has (get_state start) states))
      (new "start targets state that does not exist")

unfoldable pub validate : Parsers → Workflow → Result (Unit {0})
validate parsers o = do
  regex_validate_id o
  states ← checked_states_map o
  functions ← get_function_map o
  check_start states o.start
  for_each (λ i f. wrap (at "workflow function is invalid" i) (validate_function f)) 0 o.functions
  for_each (λ i s. wrap (at "workflow schema is invalid" i) (validate_schema parsers s)) 0 o.schemas
  for_each (check_state states functions) 0 o.states
  validate_timeout parsers o.timeouts

unfoldable pub find_state : String → List State → Result State
find_state id [] = panic
find_state id (s ∷ ss) = if str_eq (get_id s) id then ok s else find_state id ss

abbrev pub first_state : List State → Result State
first_state [] = panic
first_state (s ∷ ss) = ok s

-- `o.States[0]` panics at an empty list, and so does a start state that is not there.
unfoldable pub get_start_state : Workflow → Result State
get_start_state o = elim o.start [
  | none ↦ first_state o.states
  | some start ↦
      if is_empty (get_state start)
      then first_state o.states
      else find_state (get_state start) o.states
]
