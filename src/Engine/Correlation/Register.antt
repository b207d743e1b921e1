-- ===== src/Engine/Correlation/Register.antt =====
-- `processWorkflowEvents` of pkg/direktiv/db-events.go: the listener of a workflow that events
-- start, which is registered when the workflow is added or updated.
use direktiv.Base.{
  ◌==◌, ◌≢◌, ℕ, suc, length, String, str_eq, Bool, true, false, List, [], ◌∷◌, ◌++◌, Option, none,
  some, if◌then◌else◌, ◌≡◌,
}
use direktiv.Model.Common.{ConsumeEventDefinition}
use direktiv.Model.Start.{Start, StartEventDefinition, events_and_start, get_events}
use direktiv.Engine.Correlation.Rows.{Correlator, Listener, event_maps}
use direktiv.Engine.Correlation.Handle.{Tables, ask, same_tables, delete_listener}

-- `getWorkflowEventByWorkflowUID`: the listener of the workflow, if there is just one. `found` is
-- the one that was found so far.
unfoldable pub only_listener : String → List Listener → Option Listener → Option Listener
only_listener workflow [] found = found
only_listener workflow (l ∷ ls) none =
    only_listener workflow ls (if str_eq l.workflow workflow then some l else none)
only_listener workflow (l ∷ ls) (some m) =
    let rest = only_listener workflow ls (some m) in
    if str_eq l.workflow workflow then none else rest

abbrev pub as_consumed : List StartEventDefinition → List ConsumeEventDefinition
as_consumed [] = []
as_consumed (e ∷ es) = record { type = e.type; context = e.filters } ∷ as_consumed es

-- The switch over the type of the start.
abbrev pub correlations_of : Start → List String
correlations_of (events_and_start c lifespan correlate events) = correlate
correlations_of s = []

abbrev pub count_of : Start → ℕ
count_of (events_and_start c lifespan correlate events) = length events
count_of s = 1

module _ (c : Correlator) where
  unfoldable pub start_listener : ℕ → String → String → Start → Listener
  unfolding event_maps get_events
  start_listener id namespace workflow start = record {
    id = id;
    namespace = namespace;
    workflow = workflow;
    signature = none;
    events = event_maps c (as_consumed (get_events start));
    correlations = correlations_of start;
    count = count_of start;
  }

  abbrev pub delete_old : Option Listener → Tables → Tables
  delete_old none st = st
  delete_old (some l) st = delete_listener l.id st

  -- The new row.
  unfoldable pub create_listener : String → String → Start → Tables → Bool × Tables
  unfolding start_listener
  create_listener namespace workflow start =
      ask
        (λ st. (
          true,
          record st {
            listeners = st.listeners ++ (start_listener st.next_id namespace workflow start ∷ []);
            next_id = suc st.next_id;
          },
        ))
        (λ st. (false, st))

  abbrev pub register : String → String → Start → List StartEventDefinition → Tables → Bool × Tables
  register namespace workflow start [] st = (true, st)
  register namespace workflow start (e ∷ es) st =
      create_listener namespace workflow start
        (ask (λ t. delete_old (only_listener workflow t.listeners none) t) same_tables st)

  -- Whether it returns without an error, and the tables after it.
  unfoldable pub process_workflow_events :
      String → String → Option Start → Bool → Tables → Bool × Tables
  unfolding create_listener only_listener get_events delete_listener
  process_workflow_events namespace workflow none active st = (true, st)
  process_workflow_events namespace workflow (some start) false st = (true, st)
  process_workflow_events namespace workflow (some start) true st =
      register namespace workflow start (get_events start) st

-- A listener of another workflow, with another identifier.
abbrev pub Foreign : Listener → Listener → Type 0
Foreign l m = (m.workflow ≢ l.workflow) × ((m.id == l.id) ≡ false)
