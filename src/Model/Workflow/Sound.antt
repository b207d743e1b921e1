-- ===== src/Model/Workflow/Sound.antt =====
-- What a workflow that passes `validate` satisfies.
use direktiv.Base.{
  All-map, All-both, Bool-cases, for_each, for_each-All, lookup, ℕ, ◌≡◌, subst, ◌⊎◌, inl, inr,
  String, is_empty, true, not, ◌&&◌, List, [], ◌∷◌, map, Option, none, some, ok, about, at, refuse,
  Dict, has, In, All, eq_iff, arith, >>-eq-ok, Result-cases,
}
use direktiv.Model.Common.{Parsers, ActionDefinition, FunctionDefinition}
use direktiv.Model.StateType
use direktiv.Model.Transitions.{TransitionMap, targets}
use direktiv.Model.State.{
  State, get_id, get_type, get_transitions, transition_map, action_state, for_each_state,
  parallel_state,
}
use direktiv.Model.State.Agree.{targets-transition_map}
use direktiv.Model.Start.{Start, get_state}
use direktiv.Model.Workflow.{
  validate, check_start, checked_states_map, get_function_map, Workflow, check_transitions,
  check_functions, check_state, action_functions,
}
use direktiv.Model.Workflow.Collect.{collect-Distinct, has-collect, Distinct}

-- The type that the decoder gives to each kind of state.
abbrev pub kind : State → ℕ
kind (State.noop_state o) = StateType.noop
kind (State.validate_state o) = StateType.validate
kind (State.callback_state o) = StateType.callback
kind (State.consume_state o) = StateType.consume_event
kind (State.delay_state o) = StateType.delay
kind (State.error_state o) = StateType.error
kind (State.for_each_state o) = StateType.for_each
kind (State.action_state o) = StateType.action
kind (State.parallel_state o) = StateType.parallel
kind (State.events_and_state o) = StateType.events_and
kind (State.events_xor_state o) = StateType.events_xor
kind (State.switch_state o) = StateType.switch
kind (State.generate_event_state o) = StateType.generate_event
kind (State.getter_state o) = StateType.getter
kind (State.setter_state o) = StateType.setter

-- The `type` field of a state says what the state is.
abbrev pub IsTyped : State → Type 0
IsTyped s = get_type s ≡ kind s

abbrev called : Option ActionDefinition → List String
called none = []
called (some a) = a.function ∷ []

-- The functions that a state names, read off its fields ("" where an action names a subflow).
abbrev pub calls : State → List String
calls (action_state o) = called o.action
calls (for_each_state o) = called o.action
calls (parallel_state o) = map (λ a. a.function) o.actions
calls _ = []

abbrev pub ids : Workflow → List String
ids o = map get_id o.states

abbrev pub function_ids : Workflow → List String
function_ids o = map (λ f. f.id) o.functions

-- The state that a start names exists. Where there is no start, or it names none, nothing is
-- checked.
abbrev pub StartExists : Workflow → Option Start → Type 0
StartExists o none = Unit {0}
StartExists o (some start) = (get_state start ≡ "") ⊎ In (get_state start) (ids o)

-- The targets are those that `GetTransitions` gives, which leaves out the catches of an error state.
pub record IsSound (o : Workflow) : Type 0 where
  pub states_distinct : Distinct (ids o)
  pub functions_distinct : Distinct (function_ids o)
  pub start_exists : StartExists o o.start
  pub transitions_exist : All (λ s. All (λ t. In t (ids o)) (get_transitions s)) o.states
  pub functions_exist : All (λ s. All (λ f. (f ≡ "") ⊎ In f (function_ids o)) (calls s)) o.states

check_transitions-All :
    (states : Dict State) (i : ℕ) (m : TransitionMap)
    → check_transitions states i m ≡ ok tt
    → All (λ t. has t states ≡ true) (targets m)
unfolding check_transitions
check_transitions-All states i [] h = tt
check_transitions-All states i ((key, t) ∷ m) h =
    let (p, q) =
      >>-eq-ok
        (refuse (not (has t states)) (at "workflow state" i (about "transition does not exist" t)))
        (check_transitions states i m) h in
    (ground arith, check_transitions-All states i m q)

check_functions-All :
    (functions : Dict FunctionDefinition) (i : ℕ) (fs : List String)
    → check_functions functions i fs ≡ ok tt
    → All (λ f. (f ≡ "") ⊎ (has f functions ≡ true)) fs
unfolding check_functions
check_functions-All functions i [] h = tt
check_functions-All functions i (f ∷ fs) h =
    let (p, q) =
      >>-eq-ok
        (refuse (not (is_empty f) && not (has f functions))
          (at "workflow state" i (about "actions function does not exist" f)))
        (check_functions functions i fs) h in
    (ground (arith, eq_iff f ""), check_functions-All functions i fs q)

-- At a typed state the code reads the functions that the state names.
action_functions-calls :
    (s : State) (fs : List String) → IsTyped s → action_functions s ≡ ok fs → fs ≡ calls s
unfolding action_functions
action_functions-calls (action_state o) fs t h = ground arith
action_functions-calls s fs t h = ground arith

check_state-parts :
    (states : Dict State) (functions : Dict FunctionDefinition) (i : ℕ) (s : State)
    → IsTyped s
    → check_state states functions i s ≡ ok tt
    → All (λ t. has t states ≡ true) (get_transitions s)
      × All (λ f. (f ≡ "") ⊎ (has f functions ≡ true)) (calls s)
unfolding check_state
check_state-parts states functions i s t h = elim (Result-cases (action_functions s)) [
  | inl (fs, e) ↦
      let p : check_transitions states i (transition_map s) ≡ ok tt = ground arith in
      let q : check_functions functions i fs ≡ ok tt = ground arith in
      (
        subst (All (λ x. has x states ≡ true)) (targets-transition_map s)
            (check_transitions-All states i (transition_map s) p),
        subst (All (λ f. (f ≡ "") ⊎ (has f functions ≡ true))) (action_functions-calls s fs t e)
            (check_functions-All functions i fs q),
      )
  | inr (inl (x, e)) ↦ absurd (ground arith)
  | inr (inr e) ↦ absurd (ground arith)
]

-- What `validate` has seen to be so, piece by piece.
validate-parts :
    (parsers : Parsers) (o : Workflow)
    → validate parsers o ≡ ok tt
    → (states : Dict State) × (functions : Dict FunctionDefinition) × (checked_states_map o
        ≡ ok states)
      × (get_function_map o ≡ ok functions)
      × (check_start states o.start ≡ ok tt)
      × (for_each (check_state states functions) 0 o.states ≡ ok tt)
unfolding validate
validate-parts parsers o h = elim (Result-cases (checked_states_map o)) [
  | inl (states, e) ↦ elim (Result-cases (get_function_map o)) [
    | inl (functions, e') ↦ (states, functions, e, e', ground arith, ground arith)
    | inr (inl (x, e')) ↦ absurd (ground arith)
    | inr (inr e') ↦ absurd (ground arith)
  ]
  | inr (inl (x, e)) ↦ absurd (ground arith)
  | inr (inr e) ↦ absurd (ground arith)
]

module _ (o : Workflow) (states : Dict State) (collected : checked_states_map o ≡ ok states) where
  has-ids : (k : String) → has k states ≡ true → In k (ids o)
  unfolding checked_states_map has lookup
  has-ids k h =
      elim (has-collect get_id "state id is used in more than one state" o.states [] states k
        collected h) [ inl e ↦ absurd (ground arith) | inr i ↦ i ]

  check_start-StartExists : (s : Option Start) → check_start states s ≡ ok tt → StartExists o s
  unfolding check_start
  check_start-StartExists none h = tt
  check_start-StartExists (some start) h = elim (Bool-cases (is_empty (get_state start))) [
    | inl e ↦ inl (ground (arith, eq_iff (get_state start) ""))
    | inr e ↦ inr (has-ids (get_state start) (ground arith))
  ]

module _ (o : Workflow) (functions : Dict FunctionDefinition)
    (collected : get_function_map o ≡ ok functions) where
  has-function_ids : (k : String) → has k functions ≡ true → In k (function_ids o)
  unfolding get_function_map has lookup
  has-function_ids k h =
      elim (has-collect (λ f. f.id) "function id is used in more than one function" o.functions []
        functions k collected h) [ inl e ↦ absurd (ground arith) | inr i ↦ i ]

pub IsSound-validate :
    (parsers : Parsers) (o : Workflow)
    → All IsTyped o.states
    → validate parsers o ≡ ok tt
    → IsSound o
unfolding checked_states_map get_function_map
IsSound-validate parsers o typed h =
    let (states, functions, es, ef, start, loop) = validate-parts parsers o h in
    let checked = for_each-All (check_state states functions) 0 o.states loop in
    let parts =
      All-both IsTyped (λ s. (j : ℕ) × (check_state states functions j s ≡ ok tt))
        (λ s.
          All (λ t. has t states ≡ true) (get_transitions s)
          × All (λ f. (f ≡ "") ⊎ (has f functions ≡ true)) (calls s))
        (λ s t (j, e). check_state-parts states functions j s t e) o.states typed checked in
    record {
      states_distinct =
          collect-Distinct get_id "state id is used in more than one state" o.states [] states es;
      functions_distinct =
          collect-Distinct (λ f. f.id) "function id is used in more than one function" o.functions
            [] functions ef;
      start_exists = check_start-StartExists o states es o.start start;
      transitions_exist =
          All-map _ _ (λ s p. All-map _ _ (λ t e. has-ids o states es t e) (get_transitions s) p.0)
            o.states parts;
      functions_exist =
          All-map _ _
            (λ s p.
              All-map _ _
                (λ f e. elim e [
                  | inl q ↦ inl q
                  | inr q ↦ inr (has-function_ids o functions ef f q)
                ])
                (calls s) p.1)
            o.states parts;
    }
