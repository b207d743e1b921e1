-- ===== src/Engine/Correlation/Handle.antt =====
-- `handleEvent` and `updateMultipleEvents` of pkg/direktiv/events.go: an event that arrives.
use direktiv.Base.{
  ℕ, suc, ◌==◌, String, str_eq, is_empty, Bool, true, false, not, ◌&&◌, List, [], ◌∷◌, ◌++◌, Option,
  none, some, if◌then◌else◌, Dict, insert, has,
}
use direktiv.Model.Value.{Value, text}
use direktiv.Engine.World.{CloudEvent}
use direktiv.Engine.Correlation.Rows.{
  Correlator, Listener, Wait, matches_extensions, generate_correlation_hash, wait_events, type_of,
  types_of, unfilled, add_events,
}

-- The calls in goroutines of `EventsInvoke` and `wakeEventsWaiter`.
pub data Firing : Type 0 where
  started_workflow : String → List CloudEvent → Firing
  woke_waiter : String × ℕ → List CloudEvent → Firing

-- `answers` says whether the next calls of the database succeed; once it is empty all do. `fired`
-- has the last call first.
pub record Tables : Type 0 where
  pub listeners : List Listener
  pub waits : List Wait
  pub next_id : ℕ
  pub answers : List Bool
  pub fired : List Firing

abbrev pub answer_of : List Bool → Bool
answer_of [] = true
answer_of (b ∷ rest) = b

abbrev pub answers_after : List Bool → List Bool
answers_after [] = []
answers_after (b ∷ rest) = rest

-- One call of the database, and what follows where it succeeds and where it fails.
abbrev pub ask : {A : Type 0} → (Tables → A) → (Tables → A) → Tables → A
ask ok failed st =
    let next = record st { answers = answers_after st.answers } in
    if answer_of st.answers then ok next else failed next

abbrev pub same_tables : Tables → Tables
same_tables st = st

unfoldable pub without_wait : ℕ → List Wait → List Wait
without_wait id [] = []
without_wait id (w ∷ ws) = let rest = without_wait id ws in if w.id == id then rest else w ∷ rest

unfoldable pub without_waits_of : ℕ → List Wait → List Wait
without_waits_of id [] = []
without_waits_of id (w ∷ ws) =
    let rest = without_waits_of id ws in if w.listener == id then rest else w ∷ rest

unfoldable pub without_listener : ℕ → List Listener → List Listener
without_listener id [] = []
without_listener id (l ∷ ls) =
    let rest = without_listener id ls in if l.id == id then rest else l ∷ rest

-- `deleteWorkflowEventWait`, whose error is dropped.
unfoldable pub delete_wait : ℕ → Tables → Tables
unfolding without_wait
delete_wait id = ask (λ st. record st { waits = without_wait id st.waits }) same_tables

-- `deleteWorkflowEventListener`, whose errors are dropped.
unfoldable pub delete_listener : ℕ → Tables → Tables
unfolding without_waits_of without_listener
delete_listener id st =
    ask (λ st. record st { listeners = without_listener id st.listeners }) same_tables
      (ask (λ st. record st { waits = without_waits_of id st.waits }) same_tables st)

-- A listener of an instance is deleted when it is served, one that starts a workflow is kept.
unfoldable pub unlisten : Option (String × ℕ) → ℕ → Tables → Tables
unfolding delete_listener
unlisten none id st = st
unlisten (some signature) id st = delete_listener id st

-- The rows that the UPDATE is about.
abbrev pub is_meant : String → ℕ → Wait → Bool
is_meant key listener w = has key w.events && w.listener == listener

abbrev pub filled : String → CloudEvent → Wait → Wait
filled key event w = record w { events = insert key (some event) w.events }

unfoldable pub update_waits : String → CloudEvent → ℕ → List Wait → List Wait
unfolding insert has
update_waits key event listener [] = []
update_waits key event listener (w ∷ ws) =
    (if is_meant key listener w then filled key event w else w) ∷ update_waits key event listener ws

-- The rows that it returns.
unfoldable pub updated_waits : String → CloudEvent → ℕ → List Wait → List Wait
unfolding insert has
updated_waits key event listener [] = []
updated_waits key event listener (w ∷ ws) =
    let rest = updated_waits key event listener ws in
    if is_meant key listener w then filled key event w ∷ rest else rest

-- The loop over the rows, with the events that it has found. The inner loop ranges over a map of Go,
-- in the order `c.visited`.
unfoldable pub take_rows :
    Correlator → List Wait → List CloudEvent → Tables → List CloudEvent × Tables
unfolding unfilled add_events delete_wait
take_rows c [] found st = (found, st)
take_rows c (w ∷ ws) found st =
    let complete = unfilled w.events == 0 in
    take_rows c ws (if complete then add_events (c.visited w.events) found else found)
      (if complete then delete_wait w.id st else st)

unfoldable pub rows_of : CloudEvent → Listener → List (Dict Value) → List (Listener × Dict Value)
rows_of event l [] = []
rows_of event l (m ∷ ms) =
    let rest = rows_of event l ms in if str_eq (type_of m) event.type then (l, m) ∷ rest else rest

-- The rows of the query: the listeners of the namespace, once for each definition of the type.
unfoldable pub candidates : String → CloudEvent → List Listener → List (Listener × Dict Value)
unfolding rows_of
candidates namespace event [] = []
candidates namespace event (l ∷ ls) =
    (if str_eq l.namespace namespace then rows_of event l l.events else [])
    ++ candidates namespace event ls

module _ (c : Correlator) where
  -- `updateMultipleEvents`, where its query succeeds.
  unfoldable pub update_multiple_events :
      CloudEvent → ℕ → List String → Tables → List CloudEvent × Tables
  unfolding generate_correlation_hash update_waits updated_waits take_rows
  update_multiple_events event id correlations st =
      let key = generate_correlation_hash c event event.type correlations in
      take_rows c (updated_waits key event id st.waits) []
        (record st { waits = update_waits key event id st.waits })

  unfoldable pub add_event_listener_wait :
      CloudEvent → ℕ → List String → List String → Tables → Tables
  unfolding wait_events
  add_event_listener_wait event id correlations types =
      ask
        (λ st. record st {
          waits =
              st.waits
              ++ (record {
                id = st.next_id;
                listener = id;
                events = wait_events c event correlations types [];
              }
                  ∷ []);
          next_id = suc st.next_id;
        })
        same_tables

  abbrev pub firing : Listener → List CloudEvent → Firing
  firing l events = elim l.signature [
    | none ↦ started_workflow l.workflow events
    | some signature ↦ woke_waiter signature events
  ]

  -- The end of the loop's body.
  unfoldable pub fire : Listener → List CloudEvent → Tables → Tables
  unfolding unlisten
  fire l events st =
      let after = unlisten l.signature l.id st in
      record after { fired = firing l events ∷ after.fired }

  abbrev pub after_update : CloudEvent → Listener → List CloudEvent × Tables → Tables
  after_update event l (found, st) = elim found [
    | [] ↦
        if is_empty (generate_correlation_hash c event event.type l.correlations)
        then st
        else add_event_listener_wait event l.id l.correlations (types_of l.events) st
    | e ∷ es ↦ fire l (e ∷ es) st
  ]

  -- The body of the loop, once the row is locked.
  unfoldable pub handle_locked : CloudEvent → Listener × Dict Value → Tables → Tables
  unfolding matches_extensions update_multiple_events add_event_listener_wait fire types_of insert
  handle_locked event (l, event_map) st =
      if not (matches_extensions c event_map (insert "source" (text event.source) event.extensions))
      then st
      else (if l.count == 1
          then fire l (event ∷ []) st
          else ask
              (λ st. after_update event l (update_multiple_events event l.id l.correlations st))
              same_tables st)

  unfoldable pub handle_rows : CloudEvent → List (Listener × Dict Value) → Tables → Tables
  unfolding handle_locked
  handle_rows event [] st = st
  handle_rows event (row ∷ rows) st =
      handle_rows event rows (ask (handle_locked event row) same_tables st)

  -- Whether it returns without an error, and the tables after it.
  unfoldable pub handle_event : String → CloudEvent → Tables → Bool × Tables
  unfolding candidates handle_rows
  handle_event namespace event =
      ask (λ st. (true, handle_rows event (candidates namespace event st.listeners) st))
        (λ st. (false, st))
