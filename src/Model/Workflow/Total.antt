-- ===== src/Model/Workflow/Total.antt =====
-- `validate` does not panic on what the decoder hands it.
use direktiv.Base.{
  subst, ℕ, ◌≡◌, inl, inr, String, List, [], ◌∷◌, Option, some, Result, ok, panic, Error, map,
  Option-cases, insert, Returns, >>-Returns, wrap-Returns, for_each-Returns, for_each, refuse, wrap,
  Dict, All, All-both, arith, Result-cases, at, about, has, Bool, true, false,
}
use direktiv.Model.Common.{
  Parsers, ActionDefinition, FunctionDefinition, FunctionFileDefinition, SchemaDefinition,
  TimeoutDefinition, validate_file, validate_function, validate_schema, validate_timeout,
  is_json_schema,
}
use direktiv.Model.Transitions.{TransitionMap}
use direktiv.Model.State.{
  get_id, State, action_state, for_each_state, parallel_state, transition_map,
}
use direktiv.Model.State
use direktiv.Model.State.Action
use direktiv.Model.State.ForEach
use direktiv.Model.Start.{Start}
use direktiv.Model.State.Action.{ActionState}
use direktiv.Model.State.ForEach.{ForEachState}
use direktiv.Model.Workflow.{
  Workflow, validate, checked_states_map, get_function_map, check_transitions, check_functions,
  check_state, check_start, action_functions, collect, regex_validate_id,
}
use direktiv.Model.Workflow.Sound.{IsTyped}

refuse-Returns : (b : Bool) (e : Error) → Returns (refuse b e)
refuse-Returns true e = tt
refuse-Returns false e = tt

validate_file-Returns : (f : FunctionFileDefinition) → Returns (validate_file f)
unfolding validate_file
validate_file-Returns f = ground arith

All-always : {A : Type 0} (P : A → Type 0) → ((a : A) → P a) → (xs : List A) → All P xs
All-always P h [] = tt
All-always P h (x ∷ xs) = (h x, All-always P h xs)

validate_function-Returns : (f : FunctionDefinition) → Returns (validate_function f)
unfolding validate_function
validate_function-Returns f =
    let files =
      for_each-Returns (λ i x. wrap (at "function file" i) (validate_file x)) 0 f.files
        (All-always _
          (λ x i. wrap-Returns (at "function file" i) (validate_file x) (validate_file-Returns x))
          f.files) in
    ground (arith, files)

validate_timeout-Returns :
    (parsers : Parsers) (t : Option TimeoutDefinition) → Returns (validate_timeout parsers t)
unfolding validate_timeout
validate_timeout-Returns parsers t = ground arith

validate_schema-Returns :
    (parsers : Parsers) (s : SchemaDefinition) → Returns (validate_schema parsers s)
unfolding validate_schema is_json_schema
validate_schema-Returns parsers s = ground arith

collect-Returns :
    {A : Type 0} (key : A → String) (kind : String) (xs : List A) (m : Dict A)
    → Returns (collect key kind xs m)
unfolding collect
collect-Returns key kind [] m = tt
collect-Returns key kind (x ∷ xs) m =
    >>-Returns (refuse (has (key x) m) (about kind (key x)))
      (collect key kind xs (insert (key x) x m))
      (refuse-Returns (has (key x) m) (about kind (key x)))
      (collect-Returns key kind xs (insert (key x) x m))

check_transitions-Returns :
    (states : Dict State) (i : ℕ) (m : TransitionMap) → Returns (check_transitions states i m)
unfolding check_transitions
check_transitions-Returns states i [] = tt
check_transitions-Returns states i ((key, t) ∷ m) =
    let rest = check_transitions-Returns states i m in ground (arith, rest)

check_functions-Returns :
    (functions : Dict FunctionDefinition) (i : ℕ) (fs : List String)
    → Returns (check_functions functions i fs)
unfolding check_functions
check_functions-Returns functions i [] = tt
check_functions-Returns functions i (f ∷ fs) =
    let rest = check_functions-Returns functions i fs in ground (arith, rest)

action-some :
    (parsers : Parsers) (o : ActionState)
    → Action.validate parsers o ≡ ok tt
    → (a : ActionDefinition) × (o.action ≡ some a)
unfolding Action.validate
action-some parsers o h = elim (Option-cases o.action) [ inl e ↦ absurd (ground arith) | inr p ↦ p ]

for_each-some :
    (parsers : Parsers) (o : ForEachState)
    → ForEach.validate parsers o ≡ ok tt
    → (a : ActionDefinition) × (o.action ≡ some a)
unfolding ForEach.validate
for_each-some parsers o h = elim (Option-cases o.action) [
  | inl e ↦ absurd (ground arith)
  | inr p ↦ p
]

action_functions-ok :
    (parsers : Parsers) (s : State)
    → IsTyped s
    → State.validate parsers s ≡ ok tt
    → (fs : List String) × (action_functions s ≡ ok fs)
unfolding action_functions State.validate
action_functions-ok parsers (action_state o) t h =
    let (a, e) = action-some parsers o h in (a.function ∷ [], ground arith)
action_functions-ok parsers (for_each_state o) t h =
    let (a, e) = for_each-some parsers o h in (a.function ∷ [], ground arith)
action_functions-ok parsers (parallel_state o) t h = (map (λ a. a.function) o.actions, ground arith)
action_functions-ok parsers s t h = ([], ground arith)

check_state-Returns :
    (parsers : Parsers) (states : Dict State) (functions : Dict FunctionDefinition) (s : State)
    → IsTyped s
    → State.validate parsers s ≡ ok tt
    → (i : ℕ) → Returns (check_state states functions i s)
unfolding check_state
check_state-Returns parsers states functions s t h i =
    let (fs, e) = action_functions-ok parsers s t h in
    let p = check_transitions-Returns states i (transition_map s) in
    let q = check_functions-Returns functions i fs in ground (arith, e, p, q)

regex_validate_id-Returns : (o : Workflow) → Returns (regex_validate_id o)
unfolding regex_validate_id
regex_validate_id-Returns o = ground arith

check_start-Returns : (states : Dict State) (s : Option Start) → Returns (check_start states s)
unfolding check_start
check_start-Returns states s = ground arith

functions-Returns :
    (fs : List FunctionDefinition)
    → Returns
        (for_each (λ i f. wrap (at "workflow function is invalid" i) (validate_function f)) 0 fs)
functions-Returns fs =
    for_each-Returns (λ i f. wrap (at "workflow function is invalid" i) (validate_function f)) 0 fs
      (All-always _
        (λ f i.
          wrap-Returns (at "workflow function is invalid" i) (validate_function f)
            (validate_function-Returns f))
        fs)

schemas-Returns :
    (parsers : Parsers) (ss : List SchemaDefinition)
    → Returns (
        for_each (λ i s. wrap (at "workflow schema is invalid" i) (validate_schema parsers s)) 0 ss)
schemas-Returns parsers ss =
    for_each-Returns (λ i s. wrap (at "workflow schema is invalid" i) (validate_schema parsers s)) 0
      ss
      (All-always _
        (λ s i.
          wrap-Returns (at "workflow schema is invalid" i) (validate_schema parsers s)
            (validate_schema-Returns parsers s))
        ss)

states-Returns :
    (parsers : Parsers) (states : Dict State) (functions : Dict FunctionDefinition)
    (ss : List State)
    → All IsTyped ss
    → All (λ s. State.validate parsers s ≡ ok tt) ss
    → Returns (for_each (check_state states functions) 0 ss)
states-Returns parsers states functions ss typed valid =
    for_each-Returns (check_state states functions) 0 ss (
      All-both IsTyped (λ s. State.validate parsers s ≡ ok tt) _
        (λ s t h. check_state-Returns parsers states functions s t h) ss typed valid)

not_panic : {A : Type 0} (r : Result A) → r ≡ panic → ¬ Returns r
not_panic r e h = subst Returns e h

-- `validate` returns, with success or an error and without a panic, at a workflow whose states are
-- typed and have passed their own `Validate`, which is what `unmarshal` hands it.
pub validate-Returns :
    (parsers : Parsers) (o : Workflow)
    → All IsTyped o.states
    → All (λ s. State.validate parsers s ≡ ok tt) o.states
    → Returns (validate parsers o)
unfolding validate checked_states_map get_function_map
validate-Returns parsers o typed valid = elim (Result-cases (checked_states_map o)) [
  | inl (states, e) ↦ elim (Result-cases (get_function_map o)) [
    | inl (functions, e') ↦
        let a = regex_validate_id-Returns o in
        let b = check_start-Returns states o.start in
        let c = functions-Returns o.functions in
        let d = schemas-Returns parsers o.schemas in
        let f = states-Returns parsers states functions o.states typed valid in
        let g = validate_timeout-Returns parsers o.timeouts in
        ground (arith, e, e', a, b, c, d, f, g)
    | inr (inl (x, e')) ↦ let a = regex_validate_id-Returns o in ground (arith, e, e', a)
    | inr (inr e') ↦ absurd (
        not_panic (get_function_map o) e' (
          collect-Returns (λ f. f.id) "function id is used in more than one function" o.functions
            []))
  ]
  | inr (inl (x, e)) ↦ let a = regex_validate_id-Returns o in ground (arith, e, a)
  | inr (inr e) ↦ absurd (
      not_panic (checked_states_map o) e
        (collect-Returns get_id "state id is used in more than one state" o.states []))
]
