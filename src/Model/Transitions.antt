-- ===== src/Model/Transitions.antt =====
-- The two lists of transitions that each state gives: `getTransitions`, a map from a place in the
-- state to the state that it targets, and `GetTransitions`, the targets alone
-- (pkg/model/state-*.go).
pub mod Agree
use direktiv.Base.{
  ℕ, suc, ◌==◌, String, is_empty, Bool, true, false, List, [], ◌∷◌, ◌++◌, map, Option, none, some,
  if◌then◌else◌,
}
use direktiv.Model.Common.{ErrorDefinition}

-- The keys of the map: "transition", "defaultTransition", "errors[i]", "conditions[i]", "events[i]".
pub data Key : Type 0 where
  transition default_transition : Key
  errors conditions events : ℕ → Key

abbrev pub key_eq : Key → Key → Bool
key_eq transition transition = true
key_eq default_transition default_transition = true
key_eq (errors i) (errors j) = i == j
key_eq (conditions i) (conditions j) = i == j
key_eq (events i) (events j) = i == j
key_eq _ _ = false

abbrev pub TransitionMap : Type 0
TransitionMap = List (Key × String)

unfoldable pub get : Key → TransitionMap → Option String
get k [] = none
get k ((j, t) ∷ m) = if key_eq j k then some t else get k m

unfoldable pub put : Key → String → TransitionMap → TransitionMap
put k t [] = (k, t) ∷ []
put k t ((j, u) ∷ m) = if key_eq j k then (k, t) ∷ m else (j, u) ∷ put k t m

abbrev pub targets : TransitionMap → List String
targets [] = []
targets ((k, t) ∷ m) = t ∷ targets m

-- `if t != "" { transitions[key] = t }`.
unfoldable pub put_some : Key → String → TransitionMap → TransitionMap
unfolding put
put_some k t m = if is_empty t then m else put k t m

-- `for i, x := range xs { if x.Transition != "" { transitions[key(i)] = x.Transition } }`.
unfoldable pub put_all : (ℕ → Key) → ℕ → List String → TransitionMap → TransitionMap
unfolding put_some
put_all key i [] m = m
put_all key i (t ∷ ts) m = put_all key (suc i) ts (put_some (key i) t m)

-- `if t != "" { transitions = append(transitions, t) }`, and the loop of it.
unfoldable pub append_some : String → List String → List String
append_some t ts = if is_empty t then ts else ts ++ t ∷ []

unfoldable pub append_all : List String → List String → List String
unfolding append_some
append_all [] acc = acc
append_all (t ∷ ts) acc = append_all ts (append_some t acc)

abbrev pub catch_targets : List ErrorDefinition → List String
catch_targets = map (λ c. c.transition)

-- The bodies that the states with one `Transition` and a `Catch` share.
unfoldable pub single_map : String → List ErrorDefinition → TransitionMap
unfolding put_all
single_map t catches = put_all errors 0 (catch_targets catches) (put_some transition t [])

unfoldable pub single_list : String → List ErrorDefinition → List String
unfolding append_all
single_list t catches = append_all (catch_targets catches) (append_some t [])
