-- ===== src/Engine/Logic/Branches/Stored.antt =====
-- What the end of a parallel or foreach state stores.
use direktiv.Base.{
  ◌&&◌, if◌then◌else◌, Option-cases, true, false, inl, inr, ◌≡◌, refl, ap, ◌∙◌, List, [], ◌∷◌, ◌++◌,
  String, Option, some, none, Bool, map,
}
use direktiv.Model.Value.{Value, Items, nil, cons, array, Fields, object}
use direktiv.Engine.Instance.{set_field, save}
use direktiv.Engine.World.{
  World, Branch, Outcome, returned, failed, Record, Output, json, raw, answers_after, branches,
  memory, pass, answer_of,
}
use direktiv.Engine.Run.{StateTransition}
use direktiv.Engine.Logic.Noop.{go_to}
use direktiv.Engine.Logic.Branches.{items, all_done, save_branches, advance, output_value}
use direktiv.Engine.Logic.Branches.Scan.{all_complete}
use direktiv.Engine.Services.{Services}
use direktiv.Engine.Errors.{new_internal_error}
use direktiv.Model.Value.{text}
use direktiv.Engine.Logic.Events.Stores.{with_data, store_data-object}

-- The JSON array of the values.
abbrev pub items_of : List Value → Items
items_of [] = nil
items_of (v ∷ vs) = cons v (items_of vs)

abbrev pub results_of : List Branch → List Value
results_of = map (λ b. b.results)

items-results :
    (x : Value) (before after : List Branch) (b : Branch)
    → b.results ≡ x
    → items (before ++ (b ∷ after)) ≡ items_of (results_of before ++ (x ∷ results_of after))
items-results x [] after b h = ap (λ v. cons v (items after)) h ∙ ap (cons x) (plain after)
  where
    plain : (bs : List Branch) → items bs ≡ items_of (results_of bs)
    plain [] = refl
    plain (c ∷ bs) = ap (cons c.results) (plain bs)
items-results x (c ∷ before) after b h = ap (cons c.results) (items-results x before after b h)

-- The end of the state: `return` in the state data `m` is the array of these values, and nothing
-- else has changed.
abbrev pub ended :
    List Value → Value → String → Fields → World → Outcome (Option StateTransition) × World
ended vs transform transition m w = (
  returned (some (record { next_state = transition; transform = transform })),
  with_data (set_field "return" (array (items_of vs)) m) w,
)

-- The branch that has returned is among the others, with its output `x`.
pub all_done-ended :
    (transform : Value) (transition : String) (before after : List Branch) (b : Branch) (x : Value)
    (m : Fields) (w : World)
    → w.instance.state_data ≡ object m
    → b.results ≡ x
    → all_done transform transition (before ++ (b ∷ after)) w
      ≡ ended (results_of before ++ (x ∷ results_of after)) transform transition m w
unfolding all_done
all_done-ended transform transition before after b x m w h e =
    ap (pass (λ _. go_to transform transition))
      (store_data-object "return" (array (items (before ++ (b ∷ after)))) m w h)
    ∙ ap
        (λ vs. (
          returned (some (record { next_state = transition; transform = transform })),
          with_data (set_field "return" (array vs) m) w,
        ))
        (items-results x before after b e)

-- What the JSON text of an output is read as; any other output is kept as base64.
abbrev pub output_of : Services → Output → Value
output_of services o = elim o [ json v ↦ v | raw s ↦ text (services.base64 s) ]

pub output_value-output_of :
    (services : Services) (o : Output) → output_value services o ≡ output_of services o
unfolding output_value
output_value-output_of services (json v) = refl
output_value-output_of services (raw s) = refl

-- The branch of the action that returned with the output `x`.
abbrev pub closed : Value → Branch → Branch
closed x b = record b { complete = true; results = x }

-- The state waits with these branches, or fails without a record where the database fails.
abbrev pub kept : List Branch → Record → World → Outcome (Option StateTransition) × World
kept bs r w = elim (answer_of w.writes) [
  | none ↦ (
    returned none,
    record w {
      writes = answers_after w.writes;
      instance = record w.instance { rec = some (record r { memory = memory (branches bs) }) };
    },
  )
  | some e ↦ (
    failed (new_internal_error e),
    record w { writes = answers_after w.writes; instance = record w.instance { rec = none } },
  )
]

save_branches-kept :
    (bs : List Branch) (r : Record) (w : World)
    → w.instance.rec ≡ some r
    → save_branches bs w ≡ kept bs r w
unfolding save_branches save
save_branches-kept bs r w h = elim (Option-cases (answer_of w.writes)) [
  | inl e ↦ rw (h, e, kept) refl
  | inr (why, e) ↦ rw (h, e, kept) refl
]

-- A state after one of its actions returned with the output `x`: it ends if all the others are
-- complete, with the results of all in the order of the branches, or it waits.
abbrev pub resolved :
    List Branch
    → List Branch
    → Branch
    → Value
    → Value
    → String
    → Fields
    → Record
    → World
    → Outcome (Option StateTransition) × World
resolved before after b x transform transition m r w =
    if all_complete before && all_complete after
    then ended (results_of before ++ (x ∷ results_of after)) transform transition m w
    else kept (before ++ (closed x b ∷ after)) r w

pub advance-resolved :
    (services : Services) (transform : Value) (transition : String) (before after : List Branch)
    (b : Branch) (o : Output) (m : Fields) (r : Record) (w : World)
    → w.instance.rec ≡ some r
    → w.instance.state_data ≡ object m
    → advance
        (all_complete before && all_complete after)
        transform
        transition
        (before ++ (closed (output_value services o) b ∷ after))
        w
      ≡ resolved before after b (output_of services o) transform transition m r w
unfolding advance
advance-resolved services transform transition before after b o m r w h d =
    let x = output_of services o in
    ap
      (λ v.
        advance (all_complete before && all_complete after) transform transition
          (before ++ (closed v b ∷ after)) w)
      (output_value-output_of services o)
    ∙ either (all_complete before && all_complete after)
  where
    either :
        (ready : Bool)
        → advance ready transform transition (before ++ (closed (output_of services o) b ∷ after)) w
          ≡ (if ready
              then ended
                  (results_of before ++ (output_of services o ∷ results_of after))
                  transform
                  transition
                  m
                  w
              else kept (before ++ (closed (output_of services o) b ∷ after)) r w)
    either true =
        all_done-ended transform transition before after (closed (output_of services o) b)
          (output_of services o) m w d refl
    either false = save_branches-kept _ r w h
