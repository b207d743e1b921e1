-- ===== src/Engine/Logic/Events/Stores.antt =====
-- What the second part of a state that waits for events makes of them.
use direktiv.Base.{
  String, str_eq_ne, str_eq_self, ◌≡◌, ◌≢◌, refl, ap, ◌∙◌, true, List, [], ◌∷◌, ◌++◌, some, map,
  arith, All, length, ◌==◌,
}
use direktiv.Model.Value.{Value, Fields, object}
use direktiv.Model.State.EventsAnd.{EventsAndState}
use direktiv.Model.State.EventsXor.{EventsXorState, EventConditionDefinition}
use direktiv.Engine.Services.{Services}
use direktiv.Engine.Instance.{store_data, set_field}
use direktiv.Engine.World.{World, returned, CloudEvent, woken_by, pass, ◌>>◌, Savedata}
use direktiv.Engine.Logic.Noop.{go_to}
use direktiv.Engine.Logic.Events.{extract_event_payload, store_events}
use direktiv.Engine.Logic.Events.EventsAnd
use direktiv.Engine.Logic.Events.EventsXor
use direktiv.Engine.Logic.Events.EventsXor.{choose}

-- The payload of the event can be read, as the value `v`.
abbrev pub Pays : CloudEvent × Value → Type 0
Pays (event, v) = (w : World) → extract_event_payload event w ≡ (returned v, w)

-- The state data with the payloads under the types of their events.
abbrev pub stored : List (CloudEvent × Value) → Fields → Fields
stored [] m = m
stored ((event, v) ∷ rest) m = stored rest (set_field event.type v m)

abbrev pub with_data : Fields → World → World
with_data m w = record w { instance = record w.instance { state_data = object m } }

abbrev pub events_in : List (CloudEvent × Value) → List CloudEvent
events_in = map (λ e. e.0)

pub store_data-object :
    (key : String) (v : Value) (m : Fields) (w : World)
    → w.instance.state_data ≡ object m
    → store_data key v w ≡ (returned tt, with_data (set_field key v m) w)
unfolding store_data
store_data-object key v m w h = rw (h, store_data) refl

store_events-stored :
    (evs : List (CloudEvent × Value)) (m : Fields) (w : World)
    → w.instance.state_data ≡ object m
    → All Pays evs
    → store_events (events_in evs) w ≡ (returned tt, with_data (stored evs m) w)
unfolding store_events
store_events-stored [] m w h all =
    ap (λ v. (returned tt, record w { instance = record w.instance { state_data = v } })) h
store_events-stored ((event, v) ∷ rest) m w h all =
    let next = with_data (set_field event.type v m) w in
    ap (pass (λ x. store_data event.type x >> store_events (events_in rest))) (all.0 w)
    ∙ ap (pass (λ _. store_events (events_in rest))) (store_data-object event.type v m w h)
    ∙ store_events-stored rest (set_field event.type v m) next refl all.1

-- A state of type eventsAnd that is woken by as many events as it has definitions, each with a
-- payload that can be read, stores all the payloads under the types of their events, in the order
-- in which they came, and goes to its target. It does not look at which events they are.
pub events_and-stores :
    (services : Services) (o : EventsAndState) (saved : Savedata) (evs : List (CloudEvent × Value))
    (m : Fields) (w : World)
    → length (events_in evs) ≡ length o.events
    → w.instance.state_data ≡ object m
    → All Pays evs
    → (EventsAnd.logic services o).run saved (woken_by (events_in evs)) w ≡ (
      returned (some (record { next_state = o.transition; transform = o.transform })),
      with_data (stored evs m) w,
    )
unfolding EventsAnd.logic EventsAnd.run
events_and-stores services o saved evs m w n h all =
    let same : (length (events_in evs) == length o.events) ≡ true = ground arith in
    rw same (ap (pass (λ _. go_to o.transform o.transition)) (store_events-stored evs m w h all))

choose-first :
    (type : String) (before after : List EventConditionDefinition) (e : EventConditionDefinition)
    (w : World)
    → All (λ (d : EventConditionDefinition). d.event.type ≢ type) before
    → e.event.type ≡ type
    → choose type (before ++ (e ∷ after)) w
      ≡ (returned (some (record { next_state = e.transition; transform = e.transform })), w)
unfolding choose
choose-first type [] after e w none_before t = rw (t, str_eq_self type) refl
choose-first type (d ∷ before) after e w none_before t =
    rw (str_eq_ne d.event.type type none_before.0)
      (choose-first type before after e w none_before.1 t)

-- A state of type eventsXor that is woken by one event, with a payload that can be read, stores it
-- under the type of the event, and goes to the target of its first definition of that type, with the
-- transform of that definition.
pub events_xor-chooses :
    (services : Services) (o : EventsXorState) (saved : Savedata) (event : CloudEvent) (v : Value)
    (before after : List EventConditionDefinition) (e : EventConditionDefinition) (m : Fields)
    (w : World)
    → o.events ≡ before ++ (e ∷ after)
    → All (λ (d : EventConditionDefinition). d.event.type ≢ event.type) before
    → e.event.type ≡ event.type
    → w.instance.state_data ≡ object m
    → Pays (event, v)
    → (EventsXor.logic services o).run saved (woken_by (event ∷ [])) w ≡ (
      returned (some (record { next_state = e.transition; transform = e.transform })),
      with_data (set_field event.type v m) w,
    )
unfolding EventsXor.logic EventsXor.run EventsXor.only_event
events_xor-chooses services o saved event v before after e m w split absent t h pays =
    ap (pass (λ _. choose event.type o.events))
      (store_events-stored ((event, v) ∷ []) m w h (pays, tt))
    ∙ ap (λ es. choose event.type es (with_data (set_field event.type v m) w)) split
    ∙ choose-first event.type before after e (with_data (set_field event.type v m) w) absent t
