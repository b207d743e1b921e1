-- ===== src/Engine/Logic/ForEach.antt =====
-- pkg/direktiv/state-logic-foreach.go: the foreach state.
pub mod Ready
use direktiv.Base.{
  ℕ, suc, ◌==◌, ltb, is_empty, not, List, [], ◌∷◌, length, get_elem?, set, Option, none, some, new,
  if◌then◌else◌,
}
use direktiv.Model.Value.{Value}
use direktiv.Model.State.ForEach.{ForEachState}
use direktiv.Model.Workflow.{Workflow}
use direktiv.Engine.Errors.{internal, uncatchable}
use direktiv.Engine.Services.{Services}
use direktiv.Engine.Jq.{jq}
use direktiv.Engine.World.{
  M, Branch, Savedata, Wakedata, no_wake, retry_branch, ActionResultPayload, done, fail, this,
  or_crash, ◌>>=◌, ◌>>◌,
}
use direktiv.Engine.Run.{StateLogic, StateTransition}
use direktiv.Engine.Retry.{Retry, again, give_up, preprocess_retry}
use direktiv.Engine.Action.{deadline_from_string}
use direktiv.Engine.Logic.Noop.{refuse_savedata}
use direktiv.Engine.Logic.Branches.{
  max_parallel_actions, living_children, dispatch, save_branches, as_branches, as_results,
  output_value, scan, Found, complete_branch, with_results, advance, schedule_retry, action_error,
}

-- A nil action panics.
unfoldable pub do_one : Services → Workflow → ForEachState → Value → ℕ → M Branch
do_one services wf o source attempt = do
  action ← or_crash o.action
  dispatch services wf o.id source action attempt

unfoldable pub do_each : Services → Workflow → ForEachState → List Value → M (List Branch)
do_each services wf o [] = done []
do_each services wf o (source ∷ sources) = do
  b ← do_one services wf o source 0
  bs ← do_each services wf o sources
  done (b ∷ bs)

unfoldable pub do_all : Services → Workflow → ForEachState → M (Option StateTransition)
do_all services wf o = do
  i ← this
  sources ← jq services i.state_data o.array
  if ltb max_parallel_actions (length sources)
      then fail (
          uncatchable "direktiv.limits.parallel"
            "instance aborted for exceeding the maximum number of parallel actions (10)")
      else do_each services wf o sources >>= save_branches

-- An index out of range panics, here and below.
unfoldable pub do_specific :
    Services → Workflow → ForEachState → List Branch → ℕ → M (Option StateTransition)
do_specific services wf o bs idx = do
  i ← this
  sources ← jq services i.state_data o.array
  source ← or_crash (get_elem? sources idx)
  b ← or_crash (get_elem? bs idx)
  b' ← do_one services wf o source b.attempts
  save_branches (set bs idx b')

abbrev pub retry_of : Services → ForEachState → Branch → ActionResultPayload → M Retry
retry_of services o b p = do
  action ← or_crash o.action
  done (preprocess_retry services action.retries b.attempts (action_error services p))

abbrev pub retry_or_fail :
    ForEachState → List Branch → ℕ → Branch → Retry → M (Option StateTransition)
retry_or_fail o bs idx b (again d) = schedule_retry o.id bs idx b d
retry_or_fail o bs idx b (give_up e) = fail e

unfoldable pub after_branch :
    Services
    → ForEachState
    → List Branch
    → ℕ
    → ℕ
    → Branch
    → ActionResultPayload
    → M (Option StateTransition)
after_branch services o bs idx completed b p =
    if not (is_empty p.error_code)
    then retry_of services o b p >>= retry_or_fail o bs idx b
    else (if not (is_empty p.error_message)
        then fail (internal (new p.error_message))
        else advance (suc completed == length bs) o.transform o.transition
            (set bs idx (with_results (output_value services p.output) (complete_branch b))))

unfoldable pub on_found :
    Services
    → ForEachState
    → List Branch
    → ActionResultPayload
    → Option Found
    → M (Option StateTransition)
on_found services o bs p none = fail (internal (new "action already completed"))
on_found services o bs p (some (none, completed)) = fail (internal (new "action wasn't expected"))
on_found services o bs p (some (some idx, completed)) = do
  b ← or_crash (get_elem? bs idx)
  after_branch services o bs idx completed b p

unfoldable pub on_results :
    Services → ForEachState → List Branch → ActionResultPayload → M (Option StateTransition)
on_results services o bs p = on_found services o bs p (scan p.action_id bs 0 (none, 0))

unfoldable pub on_wake :
    Services → Workflow → ForEachState → List Branch → Wakedata → M (Option StateTransition)
on_wake services wf o bs (retry_branch logics idx) = do_specific services wf o bs idx
on_wake services wf o bs wakedata = as_results wakedata >>= on_results services o bs

unfoldable pub run :
    Services → Workflow → ForEachState → Savedata → Wakedata → M (Option StateTransition)
run services wf o savedata no_wake = refuse_savedata savedata >> do_all services wf o
run services wf o savedata wakedata = do
  bs ← as_branches savedata
  on_wake services wf o bs wakedata

unfoldable pub logic : Services → Workflow → ForEachState → StateLogic
logic services wf o = record {
  id = o.id;
  deadline = deadline_from_string services o.timeout;
  error_catchers = o.catch;
  log_jq = o.log;
  run = run services wf o;
  living_children = living_children;
}
