-- ===== src/Engine/Correlation/Tests.antt =====
-- The theorems on listeners, at a listener for two types of events.
use direktiv.Base.{
  inl, List, String, ◌≡◌, ◌≢◌, refl, ne_of_str_eq, true, false, str_eq, [], ◌∷◌, none, some, Dict,
  lookup, insert,
}
use direktiv.Model.Value.{Value, text}
use direktiv.Engine.World.{CloudEvent, no_data}
use direktiv.Engine.Correlation.Rows.{
  Correlator, Listener, Wait, generate_correlation_hash, hash_base, matches_extensions, types_of,
  unfilled, wait_events, type_of, has_event_in_list,
}
use direktiv.Engine.Correlation.Handle.{handle_event, handle_locked, updated_waits, update_waits}
use direktiv.Engine.Correlation.Fires.{Due, Adds, handle_event-Due}
use direktiv.Jqer.Strings.{has_prefix}
use direktiv.Engine.Correlation.Cases.{Passes}
use direktiv.Engine.Correlation.First.{Pair}
use direktiv.Model.Start.{Start, StartEventDefinition, events_and_start}
use direktiv.Engine.Correlation.Partial.{tables_of, partial-adds}

-- Only equal texts match, and the hash is the type.
abbrev correlator : Correlator
correlator = record {
  glob = λ pattern s. str_eq pattern s;
  hash = λ m. elim (lookup "type" m) [ some t ↦ t | none ↦ "" ];
  show = λ v. "v";
  lower = λ s. s;
  visited = λ m. m;
}

abbrev map_of : String → Dict Value
map_of type = ("type", text type) ∷ ("filter-source", text "s") ∷ []

abbrev listener : Listener
listener = record {
  id = 7;
  namespace = "n";
  workflow = "w";
  signature = some ("i", 2);
  events = map_of "a" ∷ map_of "b" ∷ [];
  correlations = "key" ∷ [];
  count = 2;
}

abbrev event_of : String → String → CloudEvent
event_of id type = record {
  id = id;
  source = "s";
  type = type;
  data_content_type = "";
  content = no_data;
  extensions = ("key", text "k") ∷ [];
}

handle_event-Due_example :
    Adds
      (Due correlator "n" (event_of "1" "a") (listener ∷ []))
      (tables_of (listener ∷ []) [] 1 [])
      (handle_event correlator "n" (event_of "1" "a") (tables_of (listener ∷ []) [] 1 [])).1
handle_event-Due_example =
    handle_event-Due correlator "n" (event_of "1" "a") (tables_of (listener ∷ []) [] 1 [])

a-Passes : Passes correlator (event_of "1" "a") (map_of "a") true
unfolding matches_extensions has_prefix insert lookup
a-Passes = refl

b-Passes : Passes correlator (event_of "2" "b") (map_of "b") true
unfolding matches_extensions has_prefix insert lookup
b-Passes = refl

base_of_key :
    (type : String)
    → hash_base correlator (event_of "1" type).extensions ("key" ∷ []) ≡ some (("key", "v") ∷ [])
unfolding hash_base insert lookup
base_of_key type = refl

other : has_event_in_list (event_of "2" "b") (event_of "1" "a" ∷ []) ≡ false
unfolding has_event_in_list
other = refl

type-map_of : (type : String) → type_of (map_of type) ≡ type
unfolding lookup
type-map_of type = refl

a_and_b :
    correlator.hash (insert "type" "a" (("key", "v") ∷ []))
    ≢ correlator.hash (insert "type" "b" (("key", "v") ∷ []))
unfolding insert lookup
a_and_b = ne_of_str_eq "a" "b" refl

a_and_nothing : correlator.hash (insert "type" "a" (("key", "v") ∷ [])) ≢ ""
unfolding insert lookup
a_and_nothing = ne_of_str_eq "a" "" refl

abbrev pair : Pair correlator
pair = record {
  listener = listener;
  first_map = map_of "a";
  second_map = map_of "b";
  a = event_of "1" "a";
  b = event_of "2" "b";
  base = ("key", "v") ∷ [];
  two = refl;
  counts_two = refl;
  first_type = type-map_of "a";
  second_type = type-map_of "b";
  other_type = ne_of_str_eq "a" "b" refl;
  first_passes = a-Passes;
  second_passes = b-Passes;
  first_base = base_of_key "a";
  second_base = base_of_key "b";
  other_hash = a_and_b;
  some_hash = a_and_nothing;
  other_event = other;
  visits = inl refl;
}

-- A listener for three types, one of which has come.
abbrev triple : Listener
triple = record listener { events = map_of "a" ∷ map_of "b" ∷ map_of "c" ∷ []; count = 3 }

abbrev one_came : Wait
one_came = record {
  id = 1;
  listener = 7;
  events = ("a", some (event_of "1" "a")) ∷ ("b", none) ∷ ("c", none) ∷ [];
}

partial-adds_example :
    handle_locked correlator
      (event_of "2" "b")
      (triple, map_of "b")
      (tables_of (triple ∷ []) (one_came ∷ []) 2 [])
    ≡ tables_of
        (triple ∷ [])
        (record one_came {
          events =
              ("a", some (event_of "1" "a")) ∷ ("b", some (event_of "2" "b")) ∷ ("c", none) ∷ [];
        }
          ∷ record {
            id = 2;
            listener = 7;
            events = ("a", none) ∷ ("b", some (event_of "2" "b")) ∷ ("c", none) ∷ [];
          }
          ∷ [])
        3
        []
unfolding generate_correlation_hash hash_base updated_waits update_waits wait_events types_of
    unfilled
partial-adds_example =
    partial-adds correlator (event_of "2" "b") triple (map_of "b") (triple ∷ []) (one_came ∷ []) 2
      [] b-Passes refl refl (refl, tt)

-- The workflow of the listener starts on two events together.
abbrev started : Start
started =
    events_and_start (record { type = 4; state = "" }) "" ("key" ∷ [])
      (record { type = "a"; filters = [] } ∷ record { type = "b"; filters = [] } ∷ [])

abbrev start_events : List StartEventDefinition
start_events = record { type = "b"; filters = [] } ∷ []

abbrev foreign : Listener
foreign = record listener { id = 6; workflow = "v"; signature = none }
