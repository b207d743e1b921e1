-- ===== src/Engine/Logic/Events/Listens.antt =====
-- What the first part of a state that waits for events leaves behind.
use direktiv.Base.{ℕ, suc, String, ◌≡◌, refl, ap, List, [], ◌∷◌, inl, inr, map, Bool-cases, Dict}
use direktiv.Model.Value.{Value, text, null, boolean, int, float, array, object}
use direktiv.Model.Common.{ConsumeEventDefinition}
use direktiv.Jqer.Outcomes.{Answer, answer, fault, panics, unfinished}
use direktiv.Engine.Errors.{other, internal, uncatchable, catchable}
use direktiv.Engine.Services.{Services}
use direktiv.Engine.Jq.{evaluate_in, evaluated, only, jq_one}
use direktiv.Engine.World.{World, M, Outcome, returned, failed, panicked, pass}
use direktiv.Engine.Logic.Events.{
  run_braced, unbraced, is_braced, plain_error, report_context, context_value, event_context,
  prepare_events, listen_value, listen_context, transform_events, acceptable,
}

-- The call leaves the world as it is, and what it returns satisfies `P`.
abbrev pub Reads : {A : Type 0} → (A → Type 0) → World → Outcome A × World → Type 0
Reads P w (returned a, w') = P a × (w' ≡ w)
Reads P w (failed e, w') = w' ≡ w
Reads P w (panicked, w') = w' ≡ w

abbrev pub Any : {A : Type 0} → A → Type 0
Any a = Unit {0}

-- A chain of calls that only read.
pass-Reads :
    {A B : Type 0} (P : A → Type 0) (Q : B → Type 0) (k : A → M B) (w : World)
    (o : Outcome A × World)
    → Reads P w o
    → ((a : A) → P a → Reads Q w (k a w))
    → Reads Q w (pass k o)
pass-Reads P Q k w (returned a, w') (p, e) f = rw e (f a p)
pass-Reads P Q k w (failed why, w') e f = e
pass-Reads P Q k w (panicked, w') e f = e

jq_one-Reads :
    (services : Services) (input command : Value) (w : World)
    → Reads Any w (jq_one services input command w)
unfolding jq_one
jq_one-Reads services input command w = by_answer (evaluate_in services input command)
  where
    by_answer : (out : Answer (List Value)) → Reads Any w (pass only (evaluated out w))
    by_answer (fault e) = refl
    by_answer panics = refl
    by_answer unfinished = refl
    by_answer (answer []) = refl
    by_answer (answer (x ∷ [])) = (tt, refl)
    by_answer (answer (x ∷ y ∷ xs)) = refl

report-Reads :
    (k : String) (w : World) (o : Outcome Value × World)
    → Reads Any w o
    → Reads Any w (report_context k o)
report-Reads k w (returned x, w') h = h
report-Reads k w (failed (catchable code message), w') h = h
report-Reads k w (failed (uncatchable code message), w') h = h
report-Reads k w (failed (internal e), w') h = h
report-Reads k w (failed (other e), w') h = h
report-Reads k w (panicked, w') h = h

context_value-Reads :
    (services : Services) (input : Value) (k : String) (v : Value) (w : World)
    → Reads Any w (context_value services input k v w)
context_value-Reads services input k (text q) w =
    report-Reads k w (jq_one services input (text q) w) (jq_one-Reads services input (text q) w)
context_value-Reads services input k null w = refl
context_value-Reads services input k (boolean b) w = refl
context_value-Reads services input k (int b) w = refl
context_value-Reads services input k (float b c) w = refl
context_value-Reads services input k (array b) w = refl
context_value-Reads services input k (object b) w = refl

event_context-Reads :
    (services : Services) (input : Value) (m : Dict Value) (w : World)
    → Reads Any w (event_context services input m w)
unfolding event_context
event_context-Reads services input [] w = (tt, refl)
event_context-Reads services input ((k, v) ∷ rest) w =
    pass-Reads Any Any _ w (context_value services input k v w)
      (context_value-Reads services input k v w)
      (λ x _.
        pass-Reads Any Any _ w (event_context services input rest w)
          (event_context-Reads services input rest w) (λ xs _. (tt, refl)))

-- The definitions keep their types.
abbrev pub SameTypes : List ConsumeEventDefinition → List ConsumeEventDefinition → Type 0
SameTypes definitions events = map (λ e. e.type) events ≡ map (λ e. e.type) definitions

pub prepare_events-Reads :
    (services : Services) (input : Value) (es : List ConsumeEventDefinition) (w : World)
    → Reads (SameTypes es) w (prepare_events services input es w)
unfolding prepare_events
prepare_events-Reads services input [] w = (refl, refl)
prepare_events-Reads services input (e ∷ es) w =
    pass-Reads Any (SameTypes (e ∷ es)) _ w (event_context services input e.context w)
      (event_context-Reads services input e.context w)
      (λ context _.
        pass-Reads (SameTypes es) (SameTypes (e ∷ es)) _ w (prepare_events services input es w)
          (prepare_events-Reads services input es w)
          (λ rest same. (ap (λ ts. e.type ∷ ts) same, refl)))

plain_error-Reads :
    (i : ℕ) (k : String) (w : World) (o : Outcome Value × World)
    → Reads Any w o
    → Reads Any w (plain_error i k o)
plain_error-Reads i k w (returned x, w') h = h
plain_error-Reads i k w (failed e, w') h = h
plain_error-Reads i k w (panicked, w') h = h

acceptable-Reads : (i : ℕ) (k : String) (v : Value) (w : World) → Reads Any w (acceptable i k v w)
unfolding acceptable
acceptable-Reads i k (boolean b) w = (tt, refl)
acceptable-Reads i k (int b) w = (tt, refl)
acceptable-Reads i k (text b) w = (tt, refl)
acceptable-Reads i k null w = refl
acceptable-Reads i k (float b c) w = refl
acceptable-Reads i k (array b) w = refl
acceptable-Reads i k (object b) w = refl

listen_value-Reads :
    (services : Services) (input : Value) (i : ℕ) (k : String) (v : Value) (w : World)
    → Reads Any w (listen_value services input i k v w)
unfolding listen_value
listen_value-Reads services input i k (text s) w = elim (Bool-cases (is_braced s)) [
  | inl e ↦
      let query = text (unbraced s) in
      rw e (
        pass-Reads Any Any (acceptable i k) w (run_braced services input i k query w)
          (plain_error-Reads i k w (jq_one services input query w)
            (jq_one-Reads services input query w))
          (λ x _. acceptable-Reads i k x w))
  | inr e ↦ rw e (tt, refl)
]
listen_value-Reads services input i k null w = (tt, refl)
listen_value-Reads services input i k (boolean b) w = (tt, refl)
listen_value-Reads services input i k (int b) w = (tt, refl)
listen_value-Reads services input i k (float b c) w = (tt, refl)
listen_value-Reads services input i k (array b) w = (tt, refl)
listen_value-Reads services input i k (object b) w = (tt, refl)

listen_context-Reads :
    (services : Services) (input : Value) (i : ℕ) (m : Dict Value) (w : World)
    → Reads Any w (listen_context services input i m w)
unfolding listen_context
listen_context-Reads services input i [] w = (tt, refl)
listen_context-Reads services input i ((k, v) ∷ rest) w =
    pass-Reads Any Any _ w (listen_value services input i k v w)
      (listen_value-Reads services input i k v w)
      (λ x _.
        pass-Reads Any Any _ w (listen_context services input i rest w)
          (listen_context-Reads services input i rest w) (λ xs _. (tt, refl)))

pub transform_events-Reads :
    (services : Services) (input : Value) (i : ℕ) (es : List ConsumeEventDefinition) (w : World)
    → Reads (SameTypes es) w (transform_events services input i es w)
unfolding transform_events
transform_events-Reads services input i [] w = (refl, refl)
transform_events-Reads services input i (e ∷ es) w =
    pass-Reads Any (SameTypes (e ∷ es)) _ w (listen_context services input i e.context w)
      (listen_context-Reads services input i e.context w)
      (λ context _.
        pass-Reads (SameTypes es) (SameTypes (e ∷ es)) _ w
          (transform_events services input (suc i) es w)
          (transform_events-Reads services input (suc i) es w)
          (λ rest same. (ap (λ ts. e.type ∷ ts) same, refl)))
