-- ===== src/Engine/Logic/Events/EventsAnd.antt =====
-- pkg/direktiv/state-logic-eventsand.go: the state that waits for one event of each of its
-- definitions.
use direktiv.Base.{[], Option, new, ◌==◌, length, true, if◌then◌else◌}
use direktiv.Model.State.EventsAnd.{EventsAndState}
use direktiv.Engine.Errors.{internal}
use direktiv.Engine.Services.{Services}
use direktiv.Engine.Action.{deadline_from_string}
use direktiv.Engine.World.{M, Savedata, Wakedata, no_wake, fail, ◌>>=◌, ◌>>◌}
use direktiv.Engine.Run.{StateLogic, StateTransition}
use direktiv.Engine.Logic.Noop.{go_to, refuse_savedata}
use direktiv.Engine.Logic.Events.{listen, events_of, store_events}

unfoldable pub run : Services → EventsAndState → Savedata → Wakedata → M (Option StateTransition)
unfolding listen store_events
run services o savedata no_wake = refuse_savedata savedata >> listen services o.events true
run services o savedata wakedata = do
  events ← events_of wakedata
  if length events == length o.events
      then (do store_events events; go_to o.transform o.transition)
      else fail (internal (new "incorrect number of events returned"))

unfoldable pub logic : Services → EventsAndState → StateLogic
logic services o = record {
  id = o.id;
  deadline = deadline_from_string services o.timeout;
  error_catchers = o.catch;
  log_jq = o.log;
  run = run services o;
  living_children = λ savedata. [];
}
