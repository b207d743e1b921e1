-- ===== src/Engine/Logic/Events/Consume.antt =====
-- pkg/direktiv/state-logic-consume-event.go: the state that waits for one event.
use direktiv.Base.{List, [], ◌∷◌, Option, new, false}
use direktiv.Model.State.Consume.{ConsumeEventState}
use direktiv.Engine.Errors.{internal}
use direktiv.Engine.Services.{Services}
use direktiv.Engine.Action.{deadline_from_string}
use direktiv.Engine.World.{
  M, CloudEvent, Savedata, Wakedata, no_wake, or_crash, done, fail, ◌>>=◌, ◌>>◌,
}
use direktiv.Engine.Run.{StateLogic, StateTransition}
use direktiv.Engine.Logic.Noop.{go_to, refuse_savedata}
use direktiv.Engine.Logic.Events.{listen, events_of, store_events}

unfoldable pub only_event : List CloudEvent → M CloudEvent
only_event [] = fail (internal (new "missing event in wakeup data"))
only_event (event ∷ []) = done event
only_event (event ∷ another ∷ rest) =
    fail (internal (new "multiple events returned when we were expecting just one"))

unfoldable pub run : Services → ConsumeEventState → Savedata → Wakedata → M (Option StateTransition)
unfolding only_event listen store_events
run services o savedata no_wake = do
  refuse_savedata savedata
  definition ← or_crash o.event
  listen services (definition ∷ []) false
run services o savedata wakedata = do
  events ← events_of wakedata
  event ← only_event events
  store_events (event ∷ [])
  go_to o.transform o.transition

unfoldable pub logic : Services → ConsumeEventState → StateLogic
logic services o = record {
  id = o.id;
  deadline = deadline_from_string services o.timeout;
  error_catchers = o.catch;
  log_jq = o.log;
  run = run services o;
  living_children = λ savedata. [];
}
