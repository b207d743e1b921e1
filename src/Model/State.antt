-- ===== src/Model/State.antt =====
-- pkg/model/state-common.go: the `State` interface, as the data type of its fifteen implementations.
pub mod Noop
pub mod Validate
pub mod Callback
pub mod Consume
pub mod Delay
pub mod Error
pub mod ForEach
pub mod Action
pub mod Parallel
pub mod EventsAnd
pub mod EventsXor
pub mod Switch
pub mod GenerateEvent
pub mod Getter
pub mod Setter
pub mod Agree
use direktiv.Base.{String, List, ℕ, Result, Option, none, some}
use direktiv.Model.Common.{Parsers, StateCommon, ErrorDefinition}
use direktiv.Model.Transitions.{TransitionMap}
use Noop
use Noop.{NoopState}
use Validate
use Validate.{ValidateState}
use Callback
use Callback.{CallbackState}
use Consume
use Consume.{ConsumeEventState}
use Delay
use Delay.{DelayState}
use Error
use Error.{ErrorState}
use ForEach
use ForEach.{ForEachState}
use Action
use Action.{ActionState}
use Parallel
use Parallel.{ParallelState}
use EventsAnd
use EventsAnd.{EventsAndState}
use EventsXor
use EventsXor.{EventsXorState}
use Switch
use Switch.{SwitchState}
use GenerateEvent
use GenerateEvent.{GenerateEventState}
use Getter
use Getter.{GetterState}
use Setter
use Setter.{SetterState}

pub data State : Type 0 where
  noop_state : NoopState → State
  validate_state : ValidateState → State
  callback_state : CallbackState → State
  consume_state : ConsumeEventState → State
  delay_state : DelayState → State
  error_state : ErrorState → State
  for_each_state : ForEachState → State
  action_state : ActionState → State
  parallel_state : ParallelState → State
  events_and_state : EventsAndState → State
  events_xor_state : EventsXorState → State
  switch_state : SwitchState → State
  generate_event_state : GenerateEventState → State
  getter_state : GetterState → State
  setter_state : SetterState → State

-- The `StateCommon` that each state embeds.
abbrev pub common : State → StateCommon
common (noop_state o) = o.common
common (validate_state o) = o.common
common (callback_state o) = o.common
common (consume_state o) = o.common
common (delay_state o) = o.common
common (error_state o) = o.common
common (for_each_state o) = o.common
common (action_state o) = o.common
common (parallel_state o) = o.common
common (events_and_state o) = o.common
common (events_xor_state o) = o.common
common (switch_state o) = o.common
common (generate_event_state o) = o.common
common (getter_state o) = o.common
common (setter_state o) = o.common

abbrev pub get_id : State → String
get_id s = (common s).id

abbrev pub get_type : State → ℕ
get_type s = (common s).type

abbrev pub error_definitions : State → List ErrorDefinition
error_definitions s = (common s).catch

unfoldable pub transition_map : State → TransitionMap
unfolding Noop.transition_map Validate.transition_map Callback.transition_map Consume.transition_map
    Delay.transition_map Error.transition_map ForEach.transition_map Action.transition_map
    Parallel.transition_map EventsAnd.transition_map EventsXor.transition_map Switch.transition_map
    GenerateEvent.transition_map Getter.transition_map Setter.transition_map
transition_map (noop_state o) = Noop.transition_map o
transition_map (validate_state o) = Validate.transition_map o
transition_map (callback_state o) = Callback.transition_map o
transition_map (consume_state o) = Consume.transition_map o
transition_map (delay_state o) = Delay.transition_map o
transition_map (error_state o) = Error.transition_map o
transition_map (for_each_state o) = ForEach.transition_map o
transition_map (action_state o) = Action.transition_map o
transition_map (parallel_state o) = Parallel.transition_map o
transition_map (events_and_state o) = EventsAnd.transition_map o
transition_map (events_xor_state o) = EventsXor.transition_map o
transition_map (switch_state o) = Switch.transition_map o
transition_map (generate_event_state o) = GenerateEvent.transition_map o
transition_map (getter_state o) = Getter.transition_map o
transition_map (setter_state o) = Setter.transition_map o

unfoldable pub get_transitions : State → List String
unfolding Noop.get_transitions Validate.get_transitions Callback.get_transitions
    Consume.get_transitions Delay.get_transitions Error.get_transitions ForEach.get_transitions
    Action.get_transitions Parallel.get_transitions EventsAnd.get_transitions
    EventsXor.get_transitions Switch.get_transitions GenerateEvent.get_transitions
    Getter.get_transitions Setter.get_transitions
get_transitions (noop_state o) = Noop.get_transitions o
get_transitions (validate_state o) = Validate.get_transitions o
get_transitions (callback_state o) = Callback.get_transitions o
get_transitions (consume_state o) = Consume.get_transitions o
get_transitions (delay_state o) = Delay.get_transitions o
get_transitions (error_state o) = Error.get_transitions o
get_transitions (for_each_state o) = ForEach.get_transitions o
get_transitions (action_state o) = Action.get_transitions o
get_transitions (parallel_state o) = Parallel.get_transitions o
get_transitions (events_and_state o) = EventsAnd.get_transitions o
get_transitions (events_xor_state o) = EventsXor.get_transitions o
get_transitions (switch_state o) = Switch.get_transitions o
get_transitions (generate_event_state o) = GenerateEvent.get_transitions o
get_transitions (getter_state o) = Getter.get_transitions o
get_transitions (setter_state o) = Setter.get_transitions o

unfoldable pub validate : Parsers → State → Result (Unit {0})
unfolding Noop.validate Validate.validate Callback.validate Consume.validate Delay.validate
    Error.validate ForEach.validate Action.validate Parallel.validate EventsAnd.validate
    EventsXor.validate Switch.validate GenerateEvent.validate Getter.validate Setter.validate
validate parsers (noop_state o) = Noop.validate o
validate parsers (validate_state o) = Validate.validate parsers o
validate parsers (callback_state o) = Callback.validate parsers o
validate parsers (consume_state o) = Consume.validate o
validate parsers (delay_state o) = Delay.validate parsers o
validate parsers (error_state o) = Error.validate o
validate parsers (for_each_state o) = ForEach.validate parsers o
validate parsers (action_state o) = Action.validate parsers o
validate parsers (parallel_state o) = Parallel.validate parsers o
validate parsers (events_and_state o) = EventsAnd.validate parsers o
validate parsers (events_xor_state o) = EventsXor.validate parsers o
validate parsers (switch_state o) = Switch.validate o
validate parsers (generate_event_state o) = GenerateEvent.validate o
validate parsers (getter_state o) = Getter.validate o
validate parsers (setter_state o) = Setter.validate o
