-- ===== src/Engine/Logic/Events/EventsXor.antt =====
-- pkg/direktiv/state-logic-eventsxor.go: the state that waits for an event of any of its
-- definitions.
use direktiv.Base.{String, str_eq, List, [], ◌∷◌, Option, new, map, false, if◌then◌else◌}
use direktiv.Model.State.EventsXor.{EventsXorState, EventConditionDefinition}
use direktiv.Engine.Errors.{internal}
use direktiv.Engine.Services.{Services}
use direktiv.Engine.Action.{deadline_from_string}
use direktiv.Engine.World.{M, CloudEvent, Savedata, Wakedata, no_wake, done, fail, ◌>>=◌, ◌>>◌}
use direktiv.Engine.Run.{StateLogic, StateTransition}
use direktiv.Engine.Logic.Noop.{go_to, refuse_savedata}
use direktiv.Engine.Logic.Events.{listen, events_of, store_events}

unfoldable pub only_event : List CloudEvent → M CloudEvent
only_event (event ∷ []) = done event
only_event _ = fail (internal (new "incorrect number of events returned"))

-- The transition of the first definition of the event's type.
unfoldable pub choose : String → List EventConditionDefinition → M (Option StateTransition)
choose type [] = fail (internal (new "got the wrong type of event back"))
choose type (e ∷ es) =
    if str_eq e.event.type type then go_to e.transform e.transition else choose type es

unfoldable pub run : Services → EventsXorState → Savedata → Wakedata → M (Option StateTransition)
unfolding listen only_event store_events choose
run services o savedata no_wake =
    refuse_savedata savedata >> listen services (map (λ e. e.event) o.events) false
run services o savedata wakedata = do
  events ← events_of wakedata
  event ← only_event events
  store_events (event ∷ [])
  choose event.type o.events

unfoldable pub logic : Services → EventsXorState → StateLogic
logic services o = record {
  id = o.id;
  deadline = deadline_from_string services o.timeout;
  error_catchers = o.catch;
  log_jq = o.log;
  run = run services o;
  living_children = λ savedata. [];
}
