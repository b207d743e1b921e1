-- ===== src/Model/Tests.antt =====
-- The theorems on workflows at a sample.
use direktiv.Base.{insert, has, ◌≡◌, refl, All, ok, lookup, Returns}
use direktiv.Model.Common
use direktiv.Model.Pattern
use direktiv.Model.Transitions
use direktiv.Model.Start
use direktiv.Model.State
use direktiv.Model.State.{State, get_id, get_transitions, transition_map}
use direktiv.Model.State.Agree.{targets-transition_map}
use direktiv.Model.Workflow
use direktiv.Model.Workflow.Sound.{IsSound, IsTyped}
use direktiv.Model.Workflow.Lookup.{FindsStart, validate-IsSound}
use direktiv.Model.Workflow.Total.{validate-Returns}
use direktiv.Model.Samples.{sample, lenient, switch_of}

sample-validate : Workflow.validate lenient sample ≡ ok tt
unfolding Workflow.validate Workflow.collect Workflow.checked_states_map Workflow.get_function_map
    Workflow.regex_validate_id Workflow.action_functions Workflow.check_transitions
    Workflow.check_functions Workflow.check_state Workflow.check_start Pattern.match_string
    Pattern.matches Pattern.workflow_id_regex Pattern.function_name_regex Common.validate_function
    Common.validate_timeout Start.get_state State.transition_map State.Noop.transition_map
    State.Switch.transition_map State.Parallel.transition_map State.get_transitions
    State.Noop.get_transitions State.Switch.get_transitions State.Parallel.get_transitions
    Transitions.put Transitions.put_some Transitions.put_all Transitions.append_some
    Transitions.append_all Transitions.single_map Transitions.single_list lookup insert has
sample-validate = refl

sample-IsTyped : All IsTyped sample.states
sample-IsTyped = (refl, (refl, (refl, (refl, tt))))

pub sample-IsSound : IsSound sample
sample-IsSound = (validate-IsSound lenient sample sample-IsTyped sample-validate).0

validate-IsSound_example : IsSound sample × FindsStart sample
validate-IsSound_example = validate-IsSound lenient sample sample-IsTyped sample-validate

validate-Returns_example : Returns (Workflow.validate lenient sample)
unfolding State.validate State.Noop.validate State.Switch.validate State.Switch.validate_condition
    State.Parallel.validate Common.common_validate Common.validate_transform
    Common.validate_transform_jq Common.validate_catches Common.validate_error_definition
    Common.validate_action Common.validate_retry
validate-Returns_example =
    validate-Returns lenient sample sample-IsTyped (refl, (refl, (refl, (refl, tt))))

abbrev picked : State
picked = State.switch_state switch_of

targets-transition_map_example :
    Transitions.targets (transition_map picked) ≡ get_transitions picked
targets-transition_map_example = targets-transition_map picked
