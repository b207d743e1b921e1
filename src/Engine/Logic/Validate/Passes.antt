-- ===== src/Engine/Logic/Validate/Passes.antt =====
-- When a validate state lets its instance go on.
use direktiv.Base.{
  ◌∙◌, sym, ap, ◌≡◌, refl, Bool, true, false, List, [], ◌∷◌, Option, none, some, arith,
}
use direktiv.Model.Value.{null, boolean, int, float, array, Value, Fields, text, object}
use direktiv.Model.State.Validate.{ValidateState}
use direktiv.Jqer.Outcomes.{Answer, answer, fault, panics, unfinished}
use direktiv.Engine.Errors.{catchable}
use direktiv.Engine.Services.{Services}
use direktiv.Engine.Jq.{evaluate_in, jq_object, jq_one, jq, only, as_object, evaluated}
use direktiv.Engine.World.{failed, World, Outcome, returned, M, nothing, no_wake, pass}
use direktiv.Engine.Run.{StateTransition}
use direktiv.Engine.Logic.Noop.{refuse_savedata, refuse_wakedata}
use direktiv.Engine.Logic.Validate.{schema_failed, subject_query, judge, run, logic}

-- The subject is an object that the schema accepts, nothing was changed, and the transition is the
-- one of the state.
pub record Passed (services : Services) (o : ValidateState) (w : World) (t : Option StateTransition)
    (w' : World) : Type 0 where
  pub subject : Fields
  pub evaluates :
      evaluate_in services w.instance.state_data (text (subject_query o))
      ≡ answer (object subject ∷ [])
  pub accepted : services.check_schema o.schema (object subject) ≡ some true
  pub goes : t ≡ some (record { next_state = o.transition; transform = o.transform })
  pub unchanged : w' ≡ w

judge-passes :
    (o : ValidateState) (a : Option Bool) (t : Option StateTransition) (w w' : World)
    → judge o a w ≡ (returned t, w')
    → (a ≡ some true)
      × (t ≡ some (record { next_state = o.transition; transform = o.transform }))
      × (w' ≡ w)
unfolding judge
judge-passes o none t w w' h = absurd (ground arith)
judge-passes o (some false) t w w' h = absurd (ground arith)
judge-passes o (some true) t w w' h =
    (refl, ground arith, sym (ap (λ (r : Outcome (Option StateTransition) × World). r.1) h))

jq_object-passes :
    (services : Services) (input command : Value) (k : Fields → M (Option StateTransition))
    (t : Option StateTransition) (w w' : World)
    → pass k (jq_object services input command w) ≡ (returned t, w')
    → (m : Fields) × (evaluate_in services input command ≡ answer (object m ∷ []))
      × (k m w ≡ (returned t, w'))
unfolding jq_object jq_one jq only as_object
jq_object-passes services input command k t w w' h =
    by_answer (evaluate_in services input command) refl h
  where
    by_answer :
        (out : Answer (List Value))
        → evaluate_in services input command ≡ out
        → pass k (pass as_object (pass only (evaluated out w))) ≡ (returned t, w')
        → (m : Fields) × (evaluate_in services input command ≡ answer (object m ∷ []))
          × (k m w ≡ (returned t, w'))
    by_answer (fault why) e g = absurd (ground arith)
    by_answer panics e g = absurd (ground arith)
    by_answer unfinished e g = absurd (ground arith)
    by_answer (answer []) e g = absurd (ground arith)
    by_answer (answer (object m ∷ [])) e g = (m, e, g)
    by_answer (answer (null ∷ [])) e g = absurd (ground arith)
    by_answer (answer (boolean b ∷ [])) e g = absurd (ground arith)
    by_answer (answer (text b ∷ [])) e g = absurd (ground arith)
    by_answer (answer (int b ∷ [])) e g = absurd (ground arith)
    by_answer (answer (float b c ∷ [])) e g = absurd (ground arith)
    by_answer (answer (array b ∷ [])) e g = absurd (ground arith)
    by_answer (answer (x ∷ y ∷ out)) e g = absurd (ground arith)

-- A validate state goes on only if its query has one output, an object, and the schema of the state
-- accepts that object. It then goes to its target with its transform, and has changed nothing.
pub validate-Passed :
    (services : Services) (o : ValidateState) (t : Option StateTransition) (w w' : World)
    → (logic services o).run nothing no_wake w ≡ (returned t, w')
    → Passed services o w t w'
unfolding logic run refuse_savedata refuse_wakedata
validate-Passed services o t w w' h =
    let k = λ (m : Fields). judge o (services.check_schema o.schema (object m)) in
    let (m, e, g) =
      jq_object-passes services w.instance.state_data (text (subject_query o)) k t w w' h in
    let (a, goes, same) = judge-passes o (services.check_schema o.schema (object m)) t w w' g in
    record { subject = m; evaluates = e; accepted = a; goes = goes; unchanged = same }

-- An object that the schema rejects is a catchable error of the state, and changes nothing.
validate-Rejects :
    (services : Services) (o : ValidateState) (m : Fields) (w : World)
    → evaluate_in services w.instance.state_data (text (subject_query o)) ≡ answer (object m ∷ [])
    → services.check_schema o.schema (object m) ≡ some false
    → (logic services o).run nothing no_wake w
      ≡ (failed (catchable "direktiv.schema.failed" schema_failed), w)
unfolding logic run refuse_savedata refuse_wakedata jq_object jq_one jq only as_object judge
validate-Rejects services o m w e r =
    let k = λ (x : Fields). judge o (services.check_schema o.schema (object x)) in
    ap (λ out. pass k (pass as_object (pass only (evaluated out w)))) e ∙ ap (λ a. judge o a w) r
