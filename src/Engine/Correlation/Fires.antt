-- ===== src/Engine/Correlation/Fires.antt =====
-- What an event that arrives sets off.
use direktiv.Base.{
  append_assoc, String, str_eq, Bool-cases, eq_iff, ◌≡◌, ◌≢◌, refl, ap, sym, ◌∙◌, subst, inl, inr,
  Bool, true, false, List, [], ◌∷◌, ◌++◌, All, In, arith, if◌then◌else◌, ◌==◌, Dict, insert,
}
use direktiv.Model.Value.{Value, text}
use direktiv.Engine.Correlation.Distinct.{Distinct, take_rows-Distinct}
use direktiv.Engine.Correlation.Cases.{
  handle_locked-other, handle_locked-single, handle_locked-multi, unlisten-fired, take_rows-fired,
}
use direktiv.Engine.World.{CloudEvent}
use direktiv.Engine.Correlation.Rows.{
  Correlator, Listener, matches_extensions, generate_correlation_hash, type_of,
}
use direktiv.Engine.Correlation.Handle.{
  Firing, Tables, ask, same_tables, answer_of, answers_after, take_rows, update_multiple_events,
  add_event_listener_wait, firing, fire, update_waits, updated_waits, after_update, handle_locked,
  handle_rows, rows_of, candidates, handle_event,
}

-- The call is due: it goes to a listener of the namespace one of whose definitions has the type of
-- the event and filters that the event passes, with the event alone if the listener counts one, and
-- otherwise with events of which no two have the same identifier and source.
pub record Due (c : Correlator) (namespace : String) (event : CloudEvent) (ls : List Listener)
    (f : Firing) : Type 0 where
  pub listener : Listener
  pub definition : Dict Value
  pub events : List CloudEvent
  pub is_listener : In listener ls
  pub in_namespace : listener.namespace ≡ namespace
  pub is_definition : In definition listener.events
  pub has_type : type_of definition ≡ event.type
  pub passes_filters :
      matches_extensions c definition (insert "source" (text event.source) event.extensions) ≡ true
  pub alone : listener.count ≡ 1 → events ≡ event ∷ []
  pub some_event : events ≢ []
  pub distinct : Distinct [] events
  pub is_firing : f ≡ firing c listener events

All-append : {A : Type 0} (P : A → Type 0) (xs ys : List A) → All P xs → All P ys → All P (xs ++ ys)
All-append P [] ys p q = q
All-append P (x ∷ xs) ys p q = (p.0, All-append P xs ys p.1 q)

-- The calls that a step adds, each of which has the property.
abbrev pub Adds : (Firing → Type 0) → Tables → Tables → Type 0
Adds P st after = (calls : List Firing) × (after.fired ≡ calls ++ st.fired) × All P calls

module _ (P : Firing → Type 0) where
  same_fired : (st after : Tables) → after.fired ≡ st.fired → Adds P st after
  same_fired st after e = ([], e, tt)

  Adds-trans : (a b c : Tables) → Adds P a b → Adds P b c → Adds P a c
  Adds-trans a b c (xs, e, p) (ys, f, q) =
      (ys ++ xs, f ∙ ap (λ t. ys ++ t) e ∙ sym (append_assoc ys xs a.fired), All-append P ys xs q p)

  -- A call that may fail changes the tables only where it succeeds.
  ask-Adds :
      (step : Tables → Tables) (st : Tables)
      → Adds P st (step (record st { answers = answers_after st.answers }))
      → Adds P st (ask step same_tables st)
  ask-Adds step st h = elim (Bool-cases (answer_of st.answers)) [
    | inl e ↦ rw e h
    | inr e ↦ rw e ([], refl, tt)
  ]

module _ (c : Correlator) (namespace : String) (event : CloudEvent) (ls : List Listener) where
  -- The row of the query is one of a listener of the namespace.
  abbrev IsCandidate : Listener × Dict Value → Type 0
  IsCandidate (l, m) =
      In l ls × (l.namespace ≡ namespace) × In m l.events × (type_of m ≡ event.type)

  fire-Adds :
      (l : Listener) (events : List CloudEvent) (st : Tables)
      → Due c namespace event ls (firing c l events)
      → Adds (Due c namespace event ls) st (fire c l events st)
  unfolding fire
  fire-Adds l events st due = (
    firing c l events ∷ [],
    ap (λ t. firing c l events ∷ t) (unlisten-fired l.signature l.id st),
    (due, tt),
  )

  after_update-Adds :
      (l : Listener) (m : Dict Value) (found : List CloudEvent) (before st : Tables)
      → IsCandidate (l, m)
      → matches_extensions c m (insert "source" (text event.source) event.extensions) ≡ true
      → l.count ≢ 1
      → Distinct [] found
      → st.fired ≡ before.fired
      → Adds (Due c namespace event ls) before (after_update c event l (found, st))
  unfolding add_event_listener_wait
  after_update-Adds l m [] before st is_row passes many d same =
      same_fired (Due c namespace event ls) before (after_update c event l ([], st))
        (ground (arith, same))
  after_update-Adds l m (e ∷ es) before st is_row passes many d same =
      let due : Due c namespace event ls (firing c l (e ∷ es)) = record {
        listener = l;
        definition = m;
        events = e ∷ es;
        is_listener = is_row.0;
        in_namespace = is_row.1;
        is_definition = is_row.2;
        has_type = is_row.3;
        passes_filters = passes;
        alone = λ one. absurd (many one);
        some_event = λ none_there. cc;
        distinct = d;
        is_firing = refl;
      } in
      Adds-trans (Due c namespace event ls) before st (fire c l (e ∷ es) st)
        (same_fired (Due c namespace event ls) before st same) (fire-Adds l (e ∷ es) st due)

  handle_locked-Adds :
      (l : Listener) (m : Dict Value) (st : Tables)
      → IsCandidate (l, m)
      → Adds (Due c namespace event ls) st (handle_locked c event (l, m) st)
  unfolding update_multiple_events
  handle_locked-Adds l m st is_row =
      let P = Due c namespace event ls in
      let extensions = insert "source" (text event.source) event.extensions in
      let goal = λ (after : Tables). Adds P st after in
      elim (Bool-cases (matches_extensions c m extensions)) [
        | inr no_match ↦
            subst goal (sym (handle_locked-other c event l m st no_match)) ([], refl, tt)
        | inl passes ↦ elim (Bool-cases (l.count == 1)) [
          | inl one ↦ subst goal (sym (handle_locked-single c event l m st passes one)) (
              fire-Adds l (event ∷ []) st (record {
                listener = l;
                definition = m;
                events = event ∷ [];
                is_listener = is_row.0;
                in_namespace = is_row.1;
                is_definition = is_row.2;
                has_type = is_row.3;
                passes_filters = passes;
                alone = λ same. refl;
                some_event = λ none_there. cc;
                distinct = (refl, tt);
                is_firing = refl;
              }))
          | inr many ↦
              let step = λ (t : Tables).
                after_update c event l (update_multiple_events c event l.id l.correlations t) in
              let next = record st { answers = answers_after st.answers } in
              let key = generate_correlation_hash c event event.type l.correlations in
              let updated = update_waits key event l.id next.waits in
              let rows = updated_waits key event l.id next.waits in
              let during = record next { waits = updated } in
              subst goal (sym (handle_locked-multi c event l m st passes many)) (
                ask-Adds P step st (
                  after_update-Adds l m (take_rows c rows [] during).0 st
                    (take_rows c rows [] during).1 is_row passes (λ e. ground (arith))
                    (take_rows-Distinct c rows [] during tt) (take_rows-fired c rows [] during)))
        ]
      ]

  handle_rows-Adds :
      (rows : List (Listener × Dict Value)) (st : Tables)
      → All IsCandidate rows
      → Adds (Due c namespace event ls) st (handle_rows c event rows st)
  unfolding handle_rows
  handle_rows-Adds [] st all = ([], refl, tt)
  handle_rows-Adds (row ∷ rows) st all =
      let step = handle_locked c event row in
      Adds-trans (Due c namespace event ls) st (ask step same_tables st)
        (handle_rows c event rows (ask step same_tables st))
        (ask-Adds (Due c namespace event ls) step st
          (handle_locked-Adds row.0 row.1 (record st { answers = answers_after st.answers }) all.0))
        (handle_rows-Adds rows (ask step same_tables st) all.1)

  rows_of-All :
      (l : Listener) (ms : List (Dict Value))
      → In l ls
      → l.namespace ≡ namespace
      → ((m : Dict Value) → In m ms → In m l.events)
      → All IsCandidate (rows_of event l ms)
  unfolding rows_of
  rows_of-All l [] is_in here part = tt
  rows_of-All l (m ∷ ms) is_in here part =
      let rest = rows_of-All l ms is_in here (λ x h. part x (inr h)) in
      elim (Bool-cases (str_eq (type_of m) event.type)) [
        | inl e ↦
            subst (All IsCandidate)
              (sym (ap (λ b. if b then (l, m) ∷ rows_of event l ms else rows_of event l ms) e))
              (
                (is_in, here, part m (inl refl), ground (arith, eq_iff (type_of m) event.type)),
                rest,
              )
        | inr e ↦
            subst (All IsCandidate)
              (sym (ap (λ b. if b then (l, m) ∷ rows_of event l ms else rows_of event l ms) e)) rest
      ]

  candidates-All :
      (some_of : List Listener)
      → ((l : Listener) → In l some_of → In l ls)
      → All IsCandidate (candidates namespace event some_of)
  unfolding candidates
  candidates-All [] part = tt
  candidates-All (l ∷ some_of) part =
      let rest = candidates-All some_of (λ x h. part x (inr h)) in
      let others = candidates namespace event some_of in
      elim (Bool-cases (str_eq l.namespace namespace)) [
        | inl e ↦
            subst (All IsCandidate)
              (sym (ap (λ b. (if b then rows_of event l l.events else []) ++ others) e))
              (All-append IsCandidate (rows_of event l l.events) others
                (rows_of-All l l.events (part l (inl refl))
                  (ground (arith, eq_iff l.namespace namespace)) (λ m h. h))
                rest)
        | inr e ↦
            subst (All IsCandidate)
              (sym (ap (λ b. (if b then rows_of event l l.events else []) ++ others) e)) rest
      ]

-- An event that arrives in a namespace takes back no call, and all that it sets off is due: each
-- call goes to a listener of this namespace one of whose definitions has the type of the event and
-- filters that the event passes, as they stood before, whatever the database answers. A listener
-- that counts one gets this event alone, the others events of which no two have the same
-- identifier and source.
pub handle_event-Due :
    (c : Correlator) (namespace : String) (event : CloudEvent) (st : Tables)
    → Adds (Due c namespace event st.listeners) st (handle_event c namespace event st).1
unfolding handle_event
handle_event-Due c namespace event st =
    let next = record st { answers = answers_after st.answers } in
    let rows = candidates namespace event st.listeners in
    elim (Bool-cases (answer_of st.answers)) [
      | inl e ↦
          subst (λ (z : Bool × Tables). Adds (Due c namespace event st.listeners) st z.1)
            (sym (ap (λ b. if b then (true, handle_rows c event rows next) else (false, next)) e))
            (handle_rows-Adds c namespace event st.listeners rows next
              (candidates-All c namespace event st.listeners st.listeners (λ l h. h)))
      | inr e ↦
          subst (λ (z : Bool × Tables). Adds (Due c namespace event st.listeners) st z.1)
            (sym (ap (λ b. if b then (true, handle_rows c event rows next) else (false, next)) e))
            ([], refl, tt)
    ]
