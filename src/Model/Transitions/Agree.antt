-- ===== src/Model/Transitions/Agree.antt =====
-- The map and the list of a state's transitions agree.
use direktiv.Base.{
  ℕ, suc, ◌≤◌, ◌<◌, ◌≡◌, refl, String, is_empty, true, false, List, [], ◌∷◌, ◌++◌, none, arith,
  Bool-cases, inl, inr, ◌∙◌, ap,
}
use direktiv.Model.Common.{ErrorDefinition}
use direktiv.Model.Transitions.{
  Key, transition, default_transition, errors, conditions, events, key_eq, TransitionMap, get, put,
  targets, put_some, put_all, append_some, append_all, single_map, single_list, catch_targets,
}

key_eq-eq : (i k : Key) → key_eq i k ≡ true → i ≡ k
key_eq-eq transition k h = ground arith
key_eq-eq default_transition k h = ground arith
key_eq-eq (errors i) k h = ground arith
key_eq-eq (conditions i) k h = ground arith
key_eq-eq (events i) k h = ground arith

get-put :
    (k j : Key) (t : String) (m : TransitionMap) → key_eq k j ≡ false → get j (put k t m) ≡ get j m
unfolding get put
get-put k j t [] h = ground arith
get-put k j t ((i, u) ∷ m) h = ground (arith, key_eq-eq i k, get-put k j t m h)

targets-put :
    (k : Key) (t : String) (m : TransitionMap)
    → get k m ≡ none
    → targets (put k t m) ≡ targets m ++ t ∷ []
unfolding get put
targets-put k t [] h = refl
targets-put k t ((i, u) ∷ m) h = ground (arith, targets-put k t m)

-- A loop over fresh keys adds its targets at the end.
targets-put_all :
    (key : ℕ → Key)
    → ((i j : ℕ) → i < j → key_eq (key i) (key j) ≡ false)
    → (i : ℕ) (ts : List String) (m : TransitionMap) → ((j : ℕ) → i ≤ j → get (key j) m ≡ none)
    → targets (put_all key i ts m) ≡ append_all ts (targets m)
unfolding put_all append_all put_some append_some
targets-put_all key apart i [] m fresh = refl
targets-put_all key apart i (t ∷ ts) m fresh = elim (Bool-cases (is_empty t)) [
  | inl e ↦ rw e (targets-put_all key apart (suc i) ts m (λ j h. fresh j (omega arith)))
  | inr e ↦
      rw (e, ← targets-put (key i) t m (fresh i (omega arith)))
        (targets-put_all key apart (suc i) ts (put (key i) t m)
          (λ j h. get-put (key i) (key j) t m (apart i j h) ∙ fresh j (omega arith)))
]

-- A loop leaves the entries at other keys.
get-put_all :
    (key : ℕ → Key) (k : Key)
    → ((i : ℕ) → key_eq (key i) k ≡ false)
    → (i : ℕ) (ts : List String) (m : TransitionMap) → get k (put_all key i ts m) ≡ get k m
unfolding put_all put_some
get-put_all key k apart i [] m = refl
get-put_all key k apart i (t ∷ ts) m =
    get-put_all key k apart (suc i) ts (put_some (key i) t m) ∙ elim (Bool-cases (is_empty t)) [
      | inl e ↦ rw e
      | inr e ↦ rw e (get-put (key i) k t m (apart i))
    ]

pub targets-errors :
    (ts : List String) (m : TransitionMap)
    → ((j : ℕ) → get (errors j) m ≡ none)
    → targets (put_all errors 0 ts m) ≡ append_all ts (targets m)
targets-errors ts m fresh = targets-put_all errors (λ i j h. ground arith) 0 ts m (λ j h. fresh j)

pub targets-conditions :
    (ts : List String) (m : TransitionMap)
    → ((j : ℕ) → get (conditions j) m ≡ none)
    → targets (put_all conditions 0 ts m) ≡ append_all ts (targets m)
targets-conditions ts m fresh =
    targets-put_all conditions (λ i j h. ground arith) 0 ts m (λ j h. fresh j)

pub targets-events :
    (ts : List String) (m : TransitionMap)
    → ((j : ℕ) → get (events j) m ≡ none)
    → targets (put_all events 0 ts m) ≡ append_all ts (targets m)
targets-events ts m fresh = targets-put_all events (λ i j h. ground arith) 0 ts m (λ j h. fresh j)

pub get-errors :
    (k : Key)
    → ((i : ℕ) → key_eq (errors i) k ≡ false)
    → (ts : List String) (m : TransitionMap) → get k (put_all errors 0 ts m) ≡ get k m
get-errors k apart ts m = get-put_all errors k apart 0 ts m

pub targets-put_some : (k : Key) (t : String) → targets (put_some k t []) ≡ append_some t []
unfolding put_some append_some put
targets-put_some k t = ground arith

pub get-put_some : (k j : Key) (t : String) → key_eq k j ≡ false → get j (put_some k t []) ≡ none
unfolding put_some put get
get-put_some k j t h = ground arith

pub targets-single :
    (t : String) (catches : List ErrorDefinition)
    → targets (single_map t catches) ≡ single_list t catches
unfolding single_map single_list
targets-single t catches =
    targets-errors (catch_targets catches) (put_some transition t [])
      (λ j. get-put_some transition (errors j) t refl)
    ∙ ap (append_all (catch_targets catches)) (targets-put_some transition t)
