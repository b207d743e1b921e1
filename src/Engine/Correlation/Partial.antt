-- ===== src/Engine/Correlation/Partial.antt =====
-- An event that completes no row, whether it was put into rows or not.
use direktiv.Base.{
  is_empty, ◌≡◌, refl, ap, ◌∙◌, true, false, List, [], ◌∷◌, ◌++◌, All, ℕ, suc, ◌==◌, Dict,
  if◌then◌else◌,
}
use direktiv.Model.Value.{Value}
use direktiv.Engine.World.{CloudEvent}
use direktiv.Engine.Correlation.Rows.{
  Correlator, Listener, Wait, generate_correlation_hash, wait_events, types_of, unfilled,
}
use direktiv.Engine.Correlation.Handle.{
  Firing, Tables, updated_waits, update_waits, update_multiple_events, take_rows,
  add_event_listener_wait, after_update, handle_locked,
}
use direktiv.Engine.Correlation.Distinct.{take_rows_incomplete}
use direktiv.Engine.Correlation.Cases.{Passes, handle_locked-multi}

abbrev pub Incomplete : Wait → Type 0
Incomplete w = (unfilled w.events == 0) ≡ false

take_rows-nothing :
    (c : Correlator) (ws : List Wait) (st : Tables)
    → All Incomplete ws
    → take_rows c ws [] st ≡ ([], st)
unfolding take_rows
take_rows-nothing c [] st all = refl
take_rows-nothing c (w ∷ ws) st all =
    take_rows_incomplete c w ws [] st all.0 ∙ take_rows-nothing c ws st all.1

abbrev pub tables_of : List Listener → List Wait → ℕ → List Firing → Tables
tables_of ls ws n fired = record {
  listeners = ls;
  waits = ws;
  next_id = n;
  answers = [];
  fired = fired;
}

-- The row for an event that comes first.
abbrev pub new_wait : Correlator → CloudEvent → Listener → ℕ → Wait
new_wait c event l n = record {
  id = n;
  listener = l.id;
  events = wait_events c event l.correlations (types_of l.events) [];
}

-- An event that passes the filters of a definition of a listener that counts more than one, that
-- carries the correlations, and that completes none of the rows of this listener, sets nothing off
-- where the database answers. It is put into each of the rows that have a place for it, and yet a
-- new row is added as if it were the first: it waits in more than one row, and can be used again.
pub partial-adds :
    (c : Correlator) (event : CloudEvent) (l : Listener) (m : Dict Value) (ls : List Listener)
    (ws : List Wait) (n : ℕ) (fired : List Firing)
    → Passes c event m true
    → (l.count == 1) ≡ false
    → is_empty (generate_correlation_hash c event event.type l.correlations) ≡ false
    → All Incomplete
        (updated_waits (generate_correlation_hash c event event.type l.correlations) event l.id ws)
    → handle_locked c event (l, m) (tables_of ls ws n fired)
      ≡ tables_of ls
          (update_waits (generate_correlation_hash c event event.type l.correlations) event l.id ws
            ++ (new_wait c event l n ∷ []))
          (suc n)
          fired
unfolding update_multiple_events add_event_listener_wait
partial-adds c event l m ls ws n fired passes many carried incomplete =
    let key = generate_correlation_hash c event event.type l.correlations in
    let put = tables_of ls (update_waits key event l.id ws) n fired in
    handle_locked-multi c event l m (tables_of ls ws n fired) passes many
    ∙ ap (after_update c event l)
        (take_rows-nothing c (updated_waits key event l.id ws) put incomplete)
    ∙ ap
        (λ b.
          if b
          then put
          else record put { waits = put.waits ++ (new_wait c event l n ∷ []); next_id = suc n })
        carried
