-- ===== src/Engine/Correlation/Rows.antt =====
-- The tables workflow_events and workflow_events_waits, and the matching of an event with the
-- definitions of a listener (pkg/direktiv/events.go, db-events.go).
use Prim.Native.String.{◌++◌ as join}
use package.text.Mathlib.TextBridge.{of_list}
use direktiv.Base.{
  ℕ, suc, length, String, str_eq, Bool, true, false, ◌&&◌, ◌||◌, List, [], ◌∷◌, ◌++◌, Option, none,
  some, if◌then◌else◌, Dict, lookup, insert,
}
use direktiv.Model.Value.{Value, text, null}
use direktiv.Model.Common.{ConsumeEventDefinition}
use direktiv.Jqer.Strings.{chars, has_prefix, drop}
use direktiv.Engine.World.{CloudEvent}
use direktiv.Engine.Logic.Variables.{reread}

-- `glob` is `glob.Glob`, `hash` the decimal text of `hash.Hash` of a map, `show` the verb %v, and
-- `lower` is `strings.ToLower`.
pub record Correlator : Type 0 where
  pub glob : String → String → Bool
  pub hash : Dict String → String
  pub show : Value → String
  pub lower : String → String
  pub visited : Dict (Option CloudEvent) → Dict (Option CloudEvent)

-- A row of workflow_events, with the namespace of its workflow. `signature` is the instance and its
-- step, or none for the start of a workflow.
pub record Listener : Type 0 where
  pub id : ℕ
  pub namespace : String
  pub workflow : String
  pub signature : Option (String × ℕ)
  pub events : List (Dict Value)
  pub correlations : List String
  pub count : ℕ

-- A row of workflow_events_waits: a hash for each type of event, and the event that came, if any.
pub record Wait : Type 0 where
  pub id : ℕ
  pub listener : ℕ
  pub events : Dict (Option CloudEvent)

abbrev pub filter_prefix : String
filter_prefix = "filter-"

module _ (c : Correlator) where
  abbrev put_filters : Dict Value → Dict Value → Dict Value
  put_filters [] m = m
  put_filters ((k, v) ∷ rest) m =
      put_filters rest (insert (join filter_prefix (c.lower k)) (reread v) m)

  -- The loop of `processWorkflowEvents` and `addWorkflowEventListener`.
  unfoldable pub event_maps : List ConsumeEventDefinition → List (Dict Value)
  unfolding insert reread
  event_maps [] = []
  event_maps (e ∷ es) = put_filters e.context (("type", text e.type) ∷ []) ∷ event_maps es

  -- The row that `addWorkflowEventListener` creates.
  unfoldable pub waiting_listener :
      ℕ → String → String → List ConsumeEventDefinition → String × ℕ → Bool → Listener
  unfolding event_maps
  waiting_listener id namespace workflow events signature all = record {
    id = id;
    namespace = namespace;
    workflow = workflow;
    signature = some signature;
    events = event_maps events;
    correlations = [];
    count = if all then length events else 1;
  }

  -- A filter at the value of the extension that it names: only two texts are compared.
  abbrev pub passes : Option Value → Value → Bool
  passes none f = false
  passes (some (text v)) (text f) = c.glob f v
  passes (some v) f = true

  abbrev pub is_filter : String → Bool
  is_filter k = has_prefix (chars filter_prefix) (chars k)

  abbrev pub trim_prefix : String → String
  trim_prefix k = of_list (drop 7 (chars k))

  unfoldable pub matches_extensions : Dict Value → Dict Value → Bool
  matches_extensions [] extensions = true
  matches_extensions ((k, f) ∷ event_map) extensions =
      let rest = matches_extensions event_map extensions in
      if is_filter k then passes (lookup (trim_prefix k) extensions) f && rest else rest

  -- The loop over the correlations; `none` where one is missing.
  unfoldable pub hash_base : Dict Value → List String → Option (Dict String)
  hash_base extensions [] = some []
  hash_base extensions (k ∷ ks) = elim (hash_base extensions ks) [
    | none ↦ none
    | some base ↦ elim (lookup (c.lower k) extensions) [
      | none ↦ none
      | some null ↦ none
      | some v ↦ some (insert k (c.show v) base)
    ]
  ]

  abbrev pub hash_of : Option (Dict String) → String → String
  hash_of none type = ""
  hash_of (some base) type = c.hash (insert "type" type base)

  unfoldable pub generate_correlation_hash : CloudEvent → String → List String → String
  unfolding hash_base
  generate_correlation_hash event type correlations =
      hash_of (hash_base event.extensions correlations) type

  -- The map that `addEventListenerWait` builds.
  unfoldable pub wait_events :
      CloudEvent → List String → List String → Dict (Option CloudEvent) → Dict (Option CloudEvent)
  unfolding generate_correlation_hash insert
  wait_events event correlations [] m = m
  wait_events event correlations (type ∷ types) m =
      let key = generate_correlation_hash event type correlations in
      wait_events event correlations types
        (insert key (if str_eq type event.type then some event else none) m)

-- The `type` of a definition, which is always a text.
abbrev pub type_of : Dict Value → String
type_of m = elim (lookup "type" m) [ some (text s) ↦ s | _ ↦ "" ]

unfoldable pub types_of : List (Dict Value) → List String
types_of [] = []
types_of (m ∷ ms) = type_of m ∷ types_of ms

unfoldable pub has_event_in_list : CloudEvent → List CloudEvent → Bool
has_event_in_list event [] = false
has_event_in_list event (e ∷ es) =
    (str_eq event.id e.id && str_eq event.source e.source) || has_event_in_list event es

-- `counter`: the events that have not come.
unfoldable pub unfilled : Dict (Option CloudEvent) → ℕ
unfilled [] = 0
unfilled ((k, none) ∷ m) = suc (unfilled m)
unfilled ((k, some e) ∷ m) = unfilled m

-- The events of a complete row, whose entries come in that order, without those that are in the
-- list.
unfoldable pub add_events : Dict (Option CloudEvent) → List CloudEvent → List CloudEvent
unfolding has_event_in_list
add_events [] found = found
add_events ((k, none) ∷ m) found = add_events m found
add_events ((k, some e) ∷ m) found =
    add_events m (if has_event_in_list e found then found else found ++ (e ∷ []))
