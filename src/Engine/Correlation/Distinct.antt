-- ===== src/Engine/Correlation/Distinct.antt =====
-- The events that the complete rows give: no two with the same identifier and source
-- (pkg/direktiv/events.go, `hasEventInList`).
use direktiv.Base.{
  append_nil, append_assoc, Bool-cases, ◌≡◌, refl, sym, subst, inl, inr, true, false, List, [], ◌∷◌,
  ◌++◌, Option, none, some, ◌==◌, Dict,
}
use direktiv.Engine.World.{CloudEvent}
use direktiv.Engine.Correlation.Rows.{Correlator, Wait, has_event_in_list, add_events, unfilled}
use direktiv.Engine.Correlation.Handle.{Tables, delete_wait, take_rows}

-- No two events with the same identifier and source; each is compared with those before it.
abbrev pub Distinct : List CloudEvent → List CloudEvent → Type 0
Distinct before [] = Unit
Distinct before (e ∷ es) = (has_event_in_list e before ≡ false) × Distinct (before ++ (e ∷ [])) es

Distinct-append :
    (e : CloudEvent) (es before : List CloudEvent)
    → Distinct before es
    → has_event_in_list e (before ++ es) ≡ false
    → Distinct before (es ++ (e ∷ []))
Distinct-append e [] before d h =
    (subst (λ z. has_event_in_list e z ≡ false) (append_nil before) h, tt)
Distinct-append e (x ∷ es) before d h = (
  d.0,
  Distinct-append e es (before ++ (x ∷ [])) d.1
      (subst (λ z. has_event_in_list e z ≡ false) (sym (append_assoc before (x ∷ []) es)) h),
)

add_events-Distinct :
    (m : Dict (Option CloudEvent)) (found : List CloudEvent)
    → Distinct [] found
    → Distinct [] (add_events m found)
unfolding add_events
add_events-Distinct [] found d = d
add_events-Distinct ((k, none) ∷ m) found d = add_events-Distinct m found d
add_events-Distinct ((k, some e) ∷ m) found d = elim (Bool-cases (has_event_in_list e found)) [
  | inl h ↦ rw h (add_events-Distinct m found d)
  | inr h ↦ rw h (add_events-Distinct m (found ++ (e ∷ [])) (Distinct-append e found [] d h))
]

pub take_rows_complete :
    (c : Correlator) (w : Wait) (ws : List Wait) (found : List CloudEvent) (st : Tables)
    → (unfilled w.events == 0) ≡ true
    → take_rows c (w ∷ ws) found st
      ≡ take_rows c ws (add_events (c.visited w.events) found) (delete_wait w.id st)
unfolding take_rows
take_rows_complete c w ws found st h = rw (h, take_rows) refl

pub take_rows_incomplete :
    (c : Correlator) (w : Wait) (ws : List Wait) (found : List CloudEvent) (st : Tables)
    → (unfilled w.events == 0) ≡ false
    → take_rows c (w ∷ ws) found st ≡ take_rows c ws found st
unfolding take_rows
take_rows_incomplete c w ws found st h = rw (h, take_rows) refl

pub take_rows-Distinct :
    (c : Correlator) (ws : List Wait) (found : List CloudEvent) (st : Tables)
    → Distinct [] found
    → Distinct [] (take_rows c ws found st).0
unfolding take_rows
take_rows-Distinct c [] found st d = d
take_rows-Distinct c (w ∷ ws) found st d = elim (Bool-cases (unfilled w.events == 0)) [
  | inl h ↦
      subst (λ z. Distinct [] z.0) (sym (take_rows_complete c w ws found st h))
        (take_rows-Distinct c ws (add_events (c.visited w.events) found) (delete_wait w.id st)
          (add_events-Distinct (c.visited w.events) found d))
  | inr h ↦
      subst (λ z. Distinct [] z.0) (sym (take_rows_incomplete c w ws found st h))
        (take_rows-Distinct c ws found st d)
]
