-- ===== src/Engine/Logic/Events/Tests.antt =====
-- The theorems on states that wait for events, at sample events.
use direktiv.Base.{String, ◌≡◌, refl, some, ◌∷◌, [], true, false, ne_of_str_eq}
use direktiv.Model.Value.{text, null, end, field}
use direktiv.Model.Common.{ConsumeEventDefinition}
use direktiv.Model.State.Consume.{ConsumeEventState}
use direktiv.Model.State.EventsAnd.{EventsAndState}
use direktiv.Model.State.EventsXor.{EventsXorState, EventConditionDefinition}
use direktiv.Model.Samples.{common_of}
use direktiv.Engine.World.{
  CloudEvent, EventData, json_data, other_data, woken_by, returned, nothing, no_wake,
}
use direktiv.Engine.Instance.{set_field}
use direktiv.Engine.Samples.{services, first_world}
use direktiv.Engine.Logic.Events.{payload_of}
use direktiv.Engine.Logic.Events.Consume
use direktiv.Engine.Logic.Events.EventsAnd
use direktiv.Engine.Logic.Events.EventsXor
use direktiv.Engine.Logic.Events.Once.{events-Waits}
use direktiv.Engine.Logic.Events.Once.{Waits}
use direktiv.Engine.Logic.Events.Stores.{events_and-stores, events_xor-chooses, with_data}

abbrev waiting_for : String → ConsumeEventDefinition
waiting_for type = record { type = type; context = ("key", text "no") ∷ [] }

abbrev consume_of : ConsumeEventState
consume_of = record {
  common = common_of "c";
  event = some (waiting_for "a");
  timeout = "";
  transform = null;
  transition = "next";
}

abbrev and_of : EventsAndState
and_of = record {
  common = common_of "c";
  events = waiting_for "a" ∷ waiting_for "b" ∷ [];
  timeout = "";
  transform = null;
  transition = "next";
}

abbrev target : String → String → EventConditionDefinition
target type next = record { event = waiting_for type; transform = null; transition = next }

abbrev xor_of : EventsXorState
xor_of = record {
  common = common_of "c";
  events = target "a" "first" ∷ target "b" "second" ∷ target "b" "third" ∷ [];
  timeout = "";
}

events-Waits_example :
    Waits first_world
      (waiting_for "a" ∷ [])
      false
      ((Consume.logic services consume_of).run nothing no_wake first_world)
    × Waits first_world
        (waiting_for "a" ∷ waiting_for "b" ∷ [])
        true
        ((EventsAnd.logic services and_of).run nothing no_wake first_world)
    × Waits first_world
        (waiting_for "a" ∷ waiting_for "b" ∷ waiting_for "b" ∷ [])
        false
        ((EventsXor.logic services xor_of).run nothing no_wake first_world)
events-Waits_example =
    events-Waits services consume_of (waiting_for "a") and_of xor_of first_world refl

-- An event whose type is given, and the form of its data.
abbrev event_of : String → String → EventData → CloudEvent
event_of type form content = record {
  id = "1";
  source = "s";
  type = type;
  data_content_type = form;
  content = content;
  extensions = [];
}

abbrev event_a : CloudEvent
event_a = event_of "a" "" (json_data (text "x") "quoted")

abbrev event_b : CloudEvent
event_b = event_of "b" "text/plain" (other_data "eA==")

events_and-stores_example :
    (EventsAnd.logic services and_of).run nothing (woken_by (event_b ∷ event_a ∷ [])) first_world
    ≡ (
      returned (some (record { next_state = "next"; transform = null })),
      with_data (field "b" (text "eA==") (field "a" (text "x") end)) first_world,
    )
unfolding set_field payload_of
events_and-stores_example =
    events_and-stores services and_of nothing ((event_b, text "eA==") ∷ (event_a, text "x") ∷ [])
      end first_world refl refl (λ w. refl, (λ w. refl, tt))

events_xor-chooses_example :
    (EventsXor.logic services xor_of).run nothing (woken_by (event_b ∷ [])) first_world ≡ (
      returned (some (record { next_state = "second"; transform = null })),
      with_data (field "b" (text "eA==") end) first_world,
    )
unfolding set_field payload_of
events_xor-chooses_example =
    events_xor-chooses services xor_of nothing event_b (text "eA==") (target "a" "first" ∷ [])
      (target "b" "third" ∷ []) (target "b" "second") end first_world refl
      (ne_of_str_eq "a" "b" refl, tt) refl refl (λ w. refl)
