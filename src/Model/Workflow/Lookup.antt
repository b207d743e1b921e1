-- ===== src/Model/Workflow/Lookup.antt =====
-- What the engine finds in a sound workflow: its start state, and the target of each transition.
use direktiv.Base.{
  panic, ◌⊎◌, sym, ◌∙◌, Option, ◌⊎◌, ◌≡◌, refl, ◌≢◌, inl, inr, sym, subst, String, is_empty, List,
  [], ◌∷◌, map, Option, none, some, ok, In, All, arith, eq_iff, Bool-cases, lookup, str_eq,
  eq_of_str_eq, str_eq_self,
}
use direktiv.Model.State.{State, get_id, get_transitions}
use direktiv.Model.Start.{Start, get_state}
use direktiv.Model.Common.{Parsers}
use direktiv.Model.Workflow.{
  validate, Workflow, get_states_map, get_start_state, find_state, first_state,
}
use direktiv.Model.Workflow.Collect.{lookup-insert_states}
use direktiv.Model.Workflow.Sound.{IsTyped, IsSound-validate, IsSound, StartExists, ids}

pub All-In : {A : Type 0} (P : A → Type 0) (xs : List A) (a : A) → All P xs → In a xs → P a
All-In P [] a h i = absurd i
All-In P (x ∷ xs) a h (inl e) = subst P (sym e) h.0
All-In P (x ∷ xs) a h (inr i) = All-In P xs a h.1 i

In-map :
    (k : String) (ss : List State) → In k (map get_id ss) → (s : State) × In s ss × (get_id s ≡ k)
In-map k [] i = absurd i
In-map k (s ∷ ss) (inl e) = (s, inl refl, sym e)
In-map k (s ∷ ss) (inr i) = let (s', j, e) = In-map k ss i in (s', inr j, e)

-- In a sound workflow the map that the engine builds (`GetStatesMap`, which checks nothing) has
-- each target of each state's transitions, and what it has there is a state of that name.
pub lookup-target :
    (o : Workflow) (s : State) (t : String)
    → IsSound o
    → In s o.states
    → In t (get_transitions s)
    → (s' : State) × (lookup t (get_states_map o) ≡ some s') × In s' o.states × (get_id s' ≡ t)
unfolding get_states_map
lookup-target o s t sound i j =
    let known =
      All-In (λ x. In x (ids o)) (get_transitions s) t
        (All-In (λ s. All (λ t. In t (ids o)) (get_transitions s)) o.states s
          sound.transitions_exist i)
        j in
    let (s', i', e) = In-map t o.states known in
    (
      s',
      subst (λ k. lookup k (get_states_map o) ≡ some s') e
          (lookup-insert_states o.states [] s' sound.states_distinct i'),
      i',
      e,
    )

find_state_of_In :
    (id : String) (ss : List State)
    → In id (map get_id ss)
    → (s : State) × (find_state id ss ≡ ok s) × In s ss × (get_id s ≡ id)
unfolding find_state
find_state_of_In id [] i = absurd i
find_state_of_In id (s ∷ ss) i = elim (Bool-cases (str_eq (get_id s) id)) [
  | inl e ↦ (s, rw e, inl refl, eq_of_str_eq (get_id s) id e)
  | inr e ↦ elim i [
    | inl p ↦ absurd (ground (arith, str_eq_self id))
    | inr j ↦ let (s', p, j', q) = find_state_of_In id ss j in (s', rw e p, inr j', q)
  ]
]

first_state-In : (ss : List State) → ss ≢ [] → (s : State) × (first_state ss ≡ ok s) × In s ss
first_state-In [] h = absurd (h refl)
first_state-In (s ∷ ss) h = (s, refl, inl refl)

-- The state is the one that the start definition names, if it names one.
abbrev pub StartsAt : Option Start → State → Type 0
StartsAt none s = Unit {0}
StartsAt (some start) s = (get_state start ≡ "") ⊎ (get_id s ≡ get_state start)

-- A sound workflow with a state has a start state: `GetStartState` does not panic, it returns one of
-- the workflow's states, and the one that the start definition names, if it names one.
get_start_state-In :
    (o : Workflow)
    → IsSound o
    → o.states ≢ []
    → (s : State) × (get_start_state o ≡ ok s) × In s o.states × StartsAt o.start s
unfolding get_start_state
get_start_state-In o sound h =
    let (s, p, i, q) = start_of o.start refl sound.start_exists in (s, p, i, q)
  where
    start_of :
        (x : Option Start)
        → o.start ≡ x
        → StartExists o x
        → (s : State) × (get_start_state o ≡ ok s) × In s o.states × StartsAt o.start s
    start_of none e p =
        let (s, q, i) = first_state-In o.states h in (s, rw (e, get_start_state) q, i, rw e tt)
    start_of (some x) e p = elim (Bool-cases (is_empty (get_state x))) [
      | inl b ↦
          let (s, q, i) = first_state-In o.states h in
          (
            s,
            rw (e, get_start_state) (rw b q),
            i,
            rw e (inl (ground (arith, eq_iff (get_state x) ""))),
          )
      | inr b ↦ elim p [
        | inl z ↦ absurd (ground (arith, eq_iff (get_state x) ""))
        | inr j ↦
            let (s, q, i, r) = find_state_of_In (get_state x) o.states j in
            (s, rw (e, get_start_state) (rw b q), i, rw e (inr r))
      ]
    ]

-- What `GetStartState` does: it returns a state of the workflow, the one that its start names if it
-- names one, or there is no state and it panics.
abbrev pub FindsStart : Workflow → Type 0
FindsStart o =
    ((s : State) × (get_start_state o ≡ ok s) × In s o.states × StartsAt o.start s)
    ⊎ ((o.states ≡ []) × (get_start_state o ≡ panic))

cons-ne : {A : Type 0} {x : A} {xs : List A} → x ∷ xs ≢ []
cons-ne e = absurd (ground arith)

no_state-panic : (o : Workflow) → IsSound o → o.states ≡ [] → get_start_state o ≡ panic
unfolding get_start_state find_state
no_state-panic o sound h = by_start o.start refl
  where
    by_start : (x : Option Start) → o.start ≡ x → get_start_state o ≡ panic
    by_start none e = rw (e, h) refl
    by_start (some x) e = elim (Bool-cases (is_empty (get_state x))) [
      | inl b ↦ rw (e, h, b) refl
      | inr b ↦ rw (e, h, b) refl
    ]

IsSound-FindsStart : (o : Workflow) → IsSound o → FindsStart o
IsSound-FindsStart o sound = by_states o.states refl
  where
    by_states : (ss : List State) → o.states ≡ ss → FindsStart o
    by_states [] e = inr (e, no_state-panic o sound e)
    by_states (x ∷ ss) e =
        inl (get_start_state-In o sound (λ none_left. absurd (cons-ne (sym e ∙ none_left))))

-- A workflow whose states are typed and that passes `validate` is sound: its states have distinct
-- identifiers and so have its functions, every transition that `GetTransitions` gives for a state,
-- which for an error state leaves out those of its catches, targets a state that exists, and every
-- function that an action names exists. `GetStartState` then returns one of its states, and the one
-- that its start names, if it names one; or the workflow has no states, and it panics.
pub validate-IsSound :
    (parsers : Parsers) (o : Workflow)
    → All IsTyped o.states
    → validate parsers o ≡ ok tt
    → IsSound o × FindsStart o
validate-IsSound parsers o typed h =
    let sound = IsSound-validate parsers o typed h in (sound, IsSound-FindsStart o sound)
