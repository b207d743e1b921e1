-- ===== src/Engine/Logic/GenerateEvent/Payload.antt =====
-- The event that a state generates, and what a state that waits for it finds.
use direktiv.Base.{◌∷◌, suc}
use direktiv.Model.Value.{Value}
use direktiv.Engine.Services.{Services}
use direktiv.Engine.World.{World, answers_after, broadcast, CloudEvent}

-- The world after the event has been sent.
abbrev pub broadcasted : Services → CloudEvent → World → World
broadcasted services event w = record w {
  tick = suc w.tick;
  writes = answers_after w.writes;
  effects = broadcast w.instance.namespace event ∷ w.effects;
}
