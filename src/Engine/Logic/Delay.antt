-- ===== src/Engine/Logic/Delay.antt =====
-- pkg/direktiv/state-logic-delay.go: the delay state, and `sleep` of engine.go.
use direktiv.Base.{ℕ, String, [], Option, none, some, new, ◌+◌}
use direktiv.Model.State.Delay.{DelayState}
use direktiv.Engine.Errors.{internal, new_internal_error}
use direktiv.Engine.Services.{Services, seconds}
use direktiv.Engine.World.{
  M, Savedata, Wakedata, no_wake, scheduled_sleep, done, fail, emit, this, write, ◌>>=◌, ◌>>◌,
}
use direktiv.Engine.Run.{StateLogic, StateTransition}
use direktiv.Engine.Logic.Noop.{go_to, refuse_savedata}

-- `sleep`: a timer, which the timer manager can refuse.
unfoldable pub sleep : String → ℕ → M (Unit {0})
sleep state t = do
  i ← this
  answer ← write
  elim answer [
    | none ↦ emit (scheduled_sleep state i.step t)
    | some e ↦ fail (new_internal_error e)
  ]

unfoldable pub fall_asleep : Services → DelayState → M (Option StateTransition)
fall_asleep services o = elim (services.duration o.duration) [
  | none ↦ fail (internal (new "failed to parse delay duration"))
  | some d ↦ sleep o.id (services.now + d) >> done none
]

unfoldable pub run_awake : Services → DelayState → Wakedata → M (Option StateTransition)
run_awake services o no_wake = fall_asleep services o
run_awake services o Wakedata.sleep = go_to o.transform o.transition
run_awake services o _ = fail (internal (new "unexpected wakedata for delay state"))

unfoldable pub run : Services → DelayState → Savedata → Wakedata → M (Option StateTransition)
run services o savedata wakedata = refuse_savedata savedata >> run_awake services o wakedata

abbrev pub delay_deadline : Services → DelayState → ℕ
delay_deadline services o = elim (services.duration o.duration) [
  | none ↦ services.now
  | some d ↦ (services.now + seconds 5) + d
]

unfoldable pub logic : Services → DelayState → StateLogic
logic services o = record {
  id = o.id;
  deadline = delay_deadline services o;
  error_catchers = o.catch;
  log_jq = o.log;
  run = run services o;
  living_children = λ savedata. [];
}
