-- ===== src/Engine/Correlation/Cases.antt =====
-- The ways through the body of `handleEvent`'s loop, and the steps that set nothing off.
use direktiv.Base.{
  String, Bool-cases, ◌≡◌, refl, ap, ◌∙◌, inl, inr, Bool, true, false, List, [], ◌∷◌, Option, none,
  some, arith, ℕ, ◌==◌, Dict, insert,
}
use direktiv.Model.Value.{Value, text}
use direktiv.Engine.Correlation.Distinct.{take_rows_complete, take_rows_incomplete}
use direktiv.Engine.World.{CloudEvent}
use direktiv.Engine.Correlation.Rows.{
  Correlator, Listener, Wait, matches_extensions, add_events, unfilled,
}
use direktiv.Engine.Correlation.Handle.{
  Tables, ask, same_tables, delete_wait, delete_listener, take_rows, update_multiple_events, fire,
  unlisten, after_update, handle_locked,
}

pub is_itself : (n : ℕ) → (n == n) ≡ true
is_itself n = ground arith

-- What is not a call of `fire` sets nothing off.
delete_wait-fired : (id : ℕ) (st : Tables) → (delete_wait id st).fired ≡ st.fired
unfolding delete_wait
delete_wait-fired id st = ground arith

delete_listener-fired : (id : ℕ) (st : Tables) → (delete_listener id st).fired ≡ st.fired
unfolding delete_listener
delete_listener-fired id st = ground arith

pub unlisten-fired :
    (s : Option (String × ℕ)) (id : ℕ) (st : Tables) → (unlisten s id st).fired ≡ st.fired
unfolding unlisten
unlisten-fired none id st = refl
unlisten-fired (some s) id st = delete_listener-fired id st

pub take_rows-fired :
    (c : Correlator) (ws : List Wait) (found : List CloudEvent) (st : Tables)
    → (take_rows c ws found st).1.fired ≡ st.fired
unfolding take_rows
take_rows-fired c [] found st = refl
take_rows-fired c (w ∷ ws) found st = elim (Bool-cases (unfilled w.events == 0)) [
  | inl h ↦
      ap (λ z. z.1.fired) (take_rows_complete c w ws found st h)
      ∙ take_rows-fired c ws (add_events (c.visited w.events) found) (delete_wait w.id st)
      ∙ delete_wait-fired w.id st
  | inr h ↦
      ap (λ z. z.1.fired) (take_rows_incomplete c w ws found st h) ∙ take_rows-fired c ws found st
]

-- The three ways through the body of the loop.
abbrev pub Passes : Correlator → CloudEvent → Dict Value → Bool → Type 0
Passes c event m b =
    matches_extensions c m (insert "source" (text event.source) event.extensions) ≡ b

pub handle_locked-other :
    (c : Correlator) (event : CloudEvent) (l : Listener) (m : Dict Value) (st : Tables)
    → Passes c event m false
    → handle_locked c event (l, m) st ≡ st
unfolding handle_locked
handle_locked-other c event l m st p = rw (p, handle_locked) refl

pub handle_locked-single :
    (c : Correlator) (event : CloudEvent) (l : Listener) (m : Dict Value) (st : Tables)
    → Passes c event m true
    → (l.count == 1) ≡ true
    → handle_locked c event (l, m) st ≡ fire c l (event ∷ []) st
unfolding handle_locked
handle_locked-single c event l m st p one = rw (p, one, handle_locked) refl

pub handle_locked-multi :
    (c : Correlator) (event : CloudEvent) (l : Listener) (m : Dict Value) (st : Tables)
    → Passes c event m true
    → (l.count == 1) ≡ false
    → handle_locked c event (l, m) st
      ≡ ask
          (λ t. after_update c event l (update_multiple_events c event l.id l.correlations t))
          same_tables
          st
unfolding handle_locked
handle_locked-multi c event l m st p many = rw (p, many, handle_locked) refl
