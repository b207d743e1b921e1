-- ===== src/Model/State/Agree.antt =====
-- Every state: the map and the list of its transitions agree.
use direktiv.Base.{[], ◌≡◌, refl, ◌∙◌, ap}
use direktiv.Model.Transitions.{Key, get, targets, append_all, put_some, catch_targets}
use direktiv.Model.Transitions.Agree.{
  targets-single, targets-errors, targets-conditions, targets-events, targets-put_some,
  get-put_some, get-errors,
}
use direktiv.Model.State.{
  State, noop_state, validate_state, callback_state, consume_state, delay_state, error_state,
  for_each_state, action_state, parallel_state, events_and_state, events_xor_state, switch_state,
  generate_event_state, getter_state, setter_state, transition_map, get_transitions,
}
use direktiv.Model.State.Switch.{SwitchState, condition_targets}
use direktiv.Model.State.Switch
use direktiv.Model.State.EventsXor.{EventsXorState, event_targets}
use direktiv.Model.State.EventsXor

targets-switch : (o : SwitchState) → targets (Switch.transition_map o) ≡ Switch.get_transitions o
unfolding Switch.transition_map Switch.get_transitions
targets-switch o =
    targets-conditions (condition_targets o.conditions) _ (λ j.
      get-errors (Key.conditions j) (λ i. refl) (catch_targets o.catch) _
      ∙ get-put_some Key.default_transition (Key.conditions j) o.default_transition refl)
    ∙ ap (append_all (condition_targets o.conditions)) (
        targets-errors (catch_targets o.catch)
          (put_some Key.default_transition o.default_transition [])
          (λ j. get-put_some Key.default_transition (Key.errors j) o.default_transition refl)
        ∙ ap (append_all (catch_targets o.catch))
            (targets-put_some Key.default_transition o.default_transition))

targets-events_xor :
    (o : EventsXorState) → targets (EventsXor.transition_map o) ≡ EventsXor.get_transitions o
unfolding EventsXor.transition_map EventsXor.get_transitions get
targets-events_xor o =
    targets-events (event_targets o.events) _
      (λ j. get-errors (Key.events j) (λ i. refl) (catch_targets o.catch) [])
    ∙ ap (append_all (event_targets o.events))
        (targets-errors (catch_targets o.catch) [] (λ j. refl))

-- For every state, the targets in its map of transitions are its list of transitions, in the order
-- in which the code puts them there: no entry of the map overwrites another.
pub targets-transition_map : (s : State) → targets (transition_map s) ≡ get_transitions s
unfolding transition_map get_transitions
targets-transition_map (noop_state o) = targets-single o.transition o.catch
targets-transition_map (validate_state o) = targets-single o.transition o.catch
targets-transition_map (callback_state o) = targets-single o.transition o.catch
targets-transition_map (consume_state o) = targets-single o.transition o.catch
targets-transition_map (delay_state o) = targets-single o.transition o.catch
targets-transition_map (error_state o) = targets-put_some Key.transition o.transition
targets-transition_map (for_each_state o) = targets-single o.transition o.catch
targets-transition_map (action_state o) = targets-single o.transition o.catch
targets-transition_map (parallel_state o) = targets-single o.transition o.catch
targets-transition_map (events_and_state o) = targets-single o.transition o.catch
targets-transition_map (events_xor_state o) = targets-events_xor o
targets-transition_map (switch_state o) = targets-switch o
targets-transition_map (generate_event_state o) = targets-single o.transition o.catch
targets-transition_map (getter_state o) = targets-single o.transition o.catch
targets-transition_map (setter_state o) = targets-single o.transition o.catch
