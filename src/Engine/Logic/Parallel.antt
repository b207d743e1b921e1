-- ===== src/Engine/Logic/Parallel.antt =====
-- pkg/direktiv/state-logic-parallel.go: the parallel state.
pub mod Ready
use direktiv.Base.{
  ℕ, zero, suc, ◌==◌, ltb, String, is_empty, Bool, true, false, not, ◌&&◌, List, [], ◌∷◌, length,
  get_elem?, set, Option, none, some, new, if◌then◌else◌,
}
use direktiv.Model.Enums
use direktiv.Model.Value.{Value}
use direktiv.Model.Common.{ActionDefinition}
use direktiv.Model.State.Parallel.{ParallelState}
use direktiv.Model.Workflow.{Workflow}
use direktiv.Engine.Errors.{Failure, internal, catchable, uncatchable}
use direktiv.Engine.Services.{Services}
use direktiv.Engine.World.{
  or_crash, M, Branch, Savedata, Wakedata, no_wake, retry_branch, ActionResultPayload, done, fail,
  crash, this, ◌>>=◌, ◌>>◌,
}
use direktiv.Engine.Run.{StateLogic, StateTransition}
use direktiv.Engine.Retry.{Retry, again, give_up, preprocess_retry}
use direktiv.Engine.Action.{deadline_from_string}
use direktiv.Engine.Logic.Noop.{refuse_savedata}
use direktiv.Engine.Logic.Branches.{
  max_parallel_actions, living_children, dispatch, save_branches, as_branches, as_results,
  output_value, scan, Found, complete_branch, with_results, advance, schedule_retry, action_error,
}

abbrev pub err_code_all_branches_failed : String
err_code_all_branches_failed = "direktiv.parallel.allFailed"

unfoldable pub dispatch_each :
    Services → Workflow → ParallelState → List ActionDefinition → M (List Branch)
dispatch_each services wf o [] = done []
dispatch_each services wf o (action ∷ actions) = do
  i ← this
  b ← dispatch services wf o.id i.state_data action 0
  bs ← dispatch_each services wf o actions
  done (b ∷ bs)

unfoldable pub dispatch_actions :
    Services → Workflow → ParallelState → Savedata → M (Option StateTransition)
dispatch_actions services wf o savedata = do
  refuse_savedata savedata
  if ltb max_parallel_actions (length o.actions)
      then fail (
          uncatchable "direktiv.limits.parallel"
            "instance aborted for exceeding the maximum number of parallel actions (10)")
      else dispatch_each services wf o o.actions >>= save_branches

-- An index out of range panics, here and below.
unfoldable pub do_specific :
    Services → Workflow → ParallelState → List Branch → ℕ → M (Option StateTransition)
do_specific services wf o bs idx = do
  action ← or_crash (get_elem? o.actions idx)
  b ← or_crash (get_elem? bs idx)
  i ← this
  b' ← dispatch services wf o.id i.state_data action b.attempts
  save_branches (set bs idx b')

-- The answer to an action that raised a catchable error.
abbrev pub retry_of : Services → ParallelState → ℕ → Branch → ActionResultPayload → M Retry
retry_of services o idx b p = do
  action ← or_crash (get_elem? o.actions idx)
  done (preprocess_retry services action.retries b.attempts (action_error services p))

abbrev pub and_retry : ParallelState → List Branch → ℕ → Branch → Retry → M (Option StateTransition)
and_retry o bs idx b (again d) = schedule_retry o.id bs idx b d
and_retry o bs idx b (give_up e) = fail e

-- A branch of a state in mode `and` returned: `completed` others had.
unfoldable pub after_and :
    Services
    → ParallelState
    → List Branch
    → ℕ
    → ℕ
    → Branch
    → ActionResultPayload
    → M (Option StateTransition)
after_and services o bs idx completed b p =
    if not (is_empty p.error_code)
    then retry_of services o idx b p >>= and_retry o bs idx b
    else (if not (is_empty p.error_message)
        then fail (internal (new p.error_message))
        else advance (suc completed == length bs) o.transform o.transition
            (set bs idx (complete_branch b)))

-- The end of a branch in mode `or`: `ready` if it succeeded.
unfoldable pub close_or :
    ParallelState → List Branch → ℕ → ℕ → Branch → Bool → M (Option StateTransition)
close_or o bs idx completed b ready =
    if not ready && (suc completed == length bs)
    then fail (catchable err_code_all_branches_failed "all branches failed")
    else advance ready o.transform o.transition (set bs idx (complete_branch b))

abbrev pub or_retry :
    ParallelState → List Branch → ℕ → ℕ → Branch → Retry → M (Option StateTransition)
or_retry o bs idx completed b (again d) = schedule_retry o.id bs idx b d
or_retry o bs idx completed b (give_up e) = close_or o bs idx completed b false

unfoldable pub after_or :
    Services
    → ParallelState
    → List Branch
    → ℕ
    → ℕ
    → Branch
    → ActionResultPayload
    → M (Option StateTransition)
after_or services o bs idx completed b p =
    if not (is_empty p.error_code)
    then retry_of services o idx b p >>= or_retry o bs idx completed b
    else (if not (is_empty p.error_message)
        then fail (internal (new p.error_message))
        else close_or o bs idx completed b true)

unfoldable pub after_branch :
    Services
    → ParallelState
    → List Branch
    → ℕ
    → ℕ
    → Branch
    → ActionResultPayload
    → M (Option StateTransition)
after_branch services o bs idx completed b p =
    if o.mode == Enums.branch_mode_and
    then after_and services o bs idx completed b p
    else (if o.mode == Enums.branch_mode_or
        then after_or services o bs idx completed b p
        else fail (internal (new "unrecognized branch mode")))

unfoldable pub on_found :
    Services
    → ParallelState
    → List Branch
    → ActionResultPayload
    → Option Found
    → M (Option StateTransition)
on_found services o bs p none = fail (internal (new "action already completed"))
on_found services o bs p (some (none, completed)) = fail (internal (new "action wasn't expected"))
on_found services o bs p (some (some idx, completed)) = do
  b ← or_crash (get_elem? bs idx)
  after_branch services o bs idx completed (with_results (output_value services p.output) b) p

unfoldable pub on_results :
    Services → ParallelState → List Branch → ActionResultPayload → M (Option StateTransition)
on_results services o bs p = on_found services o bs p (scan p.action_id bs 0 (none, 0))

unfoldable pub on_wake :
    Services → Workflow → ParallelState → List Branch → Wakedata → M (Option StateTransition)
on_wake services wf o bs (retry_branch logics idx) = do_specific services wf o bs idx
on_wake services wf o bs wakedata = as_results wakedata >>= on_results services o bs

unfoldable pub run :
    Services → Workflow → ParallelState → Savedata → Wakedata → M (Option StateTransition)
run services wf o savedata no_wake = dispatch_actions services wf o savedata
run services wf o savedata wakedata = do
  bs ← as_branches savedata
  on_wake services wf o bs wakedata

unfoldable pub logic : Services → Workflow → ParallelState → StateLogic
logic services wf o = record {
  id = o.id;
  deadline = deadline_from_string services o.timeout;
  error_catchers = o.catch;
  log_jq = o.log;
  run = run services wf o;
  living_children = living_children;
}
