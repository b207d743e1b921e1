-- ===== src/Engine/Logic/Parallel/Ready.antt =====
-- When a parallel state ends.
use direktiv.Base.{
  new, All, List, some, get_elem?, ◌≢◌, str_eq_ne, suc, ◌+◌, ◌==◌, ◌≡◌, refl, ◌∙◌, ap, Bool, false,
  ◌&&◌, List, ◌∷◌, ◌++◌, length, set, All, Option, if◌then◌else◌,
}
use direktiv.Model.Enums
use direktiv.Model.Value.{Fields, object}
use direktiv.Engine.World.{Record}
use direktiv.Engine.Logic.Branches.Stored.{
  resolved, output_of, advance-resolved, closed as closed_with,
}
use direktiv.Model.State.Parallel.{ParallelState}
use direktiv.Model.Workflow.{Workflow}
use direktiv.Engine.Services.{Services}
use direktiv.Engine.World.{
  or_crash, failed, done, fail, World, M, Branch, branches, result, ActionResultPayload, pass,
}
use direktiv.Engine.Run.{StateTransition}
use direktiv.Engine.Retry.{preprocess_retry, give_up}
use direktiv.Model.Common.{ActionDefinition}
use direktiv.Engine.Errors.{internal, Failure, catchable}
use direktiv.Engine.Logic.Branches.{
  action_error, output_value, with_results, all_done, save_branches, advance, as_branches,
  as_results,
}
use direktiv.Engine.Logic.Branches.Scan.{
  Awaits, scan-misses, count_complete, all_complete, Differs, scan-finds, set-append,
  get_elem?-append, ready-all_complete,
}
use direktiv.Engine.Logic.Parallel.{
  err_code_all_branches_failed, after_or, close_or, or_retry, run, on_wake, on_results, on_found,
  after_branch, after_and, logic,
}

-- The branch as it is kept after its action returned.
abbrev pub closed : Services → ActionResultPayload → Branch → Branch
closed services p b = closed_with (output_value services p.output) b

run-after_branch :
    (services : Services) (wf : Workflow) (o : ParallelState) (before after : List Branch)
    (b : Branch) (p : ActionResultPayload) (w : World)
    → Awaits p.action_id before b after
    → run services wf o (branches (before ++ (b ∷ after))) (result p) w
      ≡ after_branch services o
          (before ++ (b ∷ after))
          (length before)
          (count_complete before + count_complete after)
          (with_results (output_value services p.output) b)
          p
          w
unfolding run on_wake on_results on_found as_branches as_results
run-after_branch services wf o before after b p w h =
    let bs = before ++ (b ∷ after) in
    let found =
      scan-finds p.action_id before after b h.named h.incomplete h.others_before h.others_after in
    let k = λ (x : Branch).
      after_branch services o bs (length before) (count_complete before + count_complete after)
        (with_results (output_value services p.output) x) p in
    ap (λ x. on_found services o bs p x w) found
    ∙ ap (λ x. pass k (or_crash x w)) (get_elem?-append before after b)

advance-ready :
    (services : Services) (o : ParallelState) (before after : List Branch) (b : Branch)
    (p : ActionResultPayload) (w : World)
    → advance
        (suc (count_complete before + count_complete after) == length (before ++ (b ∷ after)))
        o.transform
        o.transition
        (set (before ++ (b ∷ after)) (length before) (closed services p b))
        w
      ≡ advance
          (all_complete before && all_complete after)
          o.transform
          o.transition
          (before ++ (closed services p b ∷ after))
          w
advance-ready services o before after b p w =
    rw (ready-all_complete before after b, set-append before after b (closed services p b)) refl

-- In a parallel state of mode `and`, with a record and an object as its data, in which an action
-- returns without an error, the state ends exactly when all the other branches are complete: the
-- array of the results of all, in the order of the branches and with the output of this action in
-- its place, is stored as `return` in the data, and the transition is returned, with nothing else
-- changed. Otherwise the state waits, and the branches are saved with this one closed with its
-- output; where the database fails then, the state fails and its record is gone.
pub parallel-and :
    (services : Services) (wf : Workflow) (o : ParallelState) (before after : List Branch)
    (b : Branch) (p : ActionResultPayload) (m : Fields) (r : Record) (w : World)
    → w.instance.rec ≡ some r
    → w.instance.state_data ≡ object m
    → o.mode ≡ Enums.branch_mode_and
    → Awaits p.action_id before b after
    → p.error_code ≡ ""
    → p.error_message ≡ ""
    → (logic services wf o).run (branches (before ++ (b ∷ after))) (result p) w
      ≡ resolved before after b (output_of services p.output) o.transform o.transition m r w
unfolding logic after_branch after_and
parallel-and services wf o before after b p m r w stored is_data mode h c e =
    run-after_branch services wf o before after b p w h
    ∙ rw (mode, c, e) (advance-ready services o before after b p w)
    ∙ advance-resolved services o.transform o.transition before after b p.output m r w stored
        is_data

-- What a state in mode `or` does after a branch failed for good.
abbrev pub exhausted : ParallelState → Bool → List Branch → M (Option StateTransition)
exhausted o over bs =
    if over
    then fail (catchable err_code_all_branches_failed "all branches failed")
    else save_branches bs

close_or-ready :
    (services : Services) (o : ParallelState) (before after : List Branch) (b : Branch)
    (p : ActionResultPayload) (w : World)
    → close_or o
        (before ++ (b ∷ after))
        (length before)
        (count_complete before + count_complete after)
        (with_results (output_value services p.output) b)
        false
        w
      ≡ exhausted o
          (all_complete before && all_complete after)
          (before ++ (closed services p b ∷ after))
          w
unfolding close_or advance
close_or-ready services o before after b p w =
    rw (ready-all_complete before after b, set-append before after b (closed services p b)) refl

-- In a parallel state of mode `or` an action that returns without an error ends the state, whatever
-- the other branches do.
parallel-or :
    (services : Services) (wf : Workflow) (o : ParallelState) (before after : List Branch)
    (b : Branch) (p : ActionResultPayload) (w : World)
    → o.mode ≡ Enums.branch_mode_or
    → Awaits p.action_id before b after
    → p.error_code ≡ ""
    → p.error_message ≡ ""
    → (logic services wf o).run (branches (before ++ (b ∷ after))) (result p) w
      ≡ all_done o.transform o.transition (before ++ (closed services p b ∷ after)) w
unfolding logic after_branch after_or close_or advance
parallel-or services wf o before after b p w m h c e =
    run-after_branch services wf o before after b p w h
    ∙ rw (m, c, e, set-append before after b (closed services p b)) refl

-- An action that fails and is not tried again leaves the state in mode `or` waiting, with its
-- branch closed, as long as another branch is open. With the last of them the state fails by the
-- catchable error `direktiv.parallel.allFailed`.
parallel-all_failed :
    (services : Services) (wf : Workflow) (o : ParallelState) (before after : List Branch)
    (b : Branch) (p : ActionResultPayload) (a : ActionDefinition) (e : Failure) (w : World)
    → o.mode ≡ Enums.branch_mode_or
    → Awaits p.action_id before b after
    → p.error_code ≢ ""
    → get_elem? o.actions (length before) ≡ some a
    → preprocess_retry services a.retries b.attempts (action_error services p) ≡ give_up e
    → (logic services wf o).run (branches (before ++ (b ∷ after))) (result p) w
      ≡ exhausted o
          (all_complete before && all_complete after)
          (before ++ (closed services p b ∷ after))
          w
unfolding logic after_branch after_or close_or
parallel-all_failed services wf o before after b p a e w m h c found over =
    let bs = before ++ (b ∷ after) in
    let n = count_complete before + count_complete after in
    let b' = with_results (output_value services p.output) b in
    let k = or_retry o bs (length before) n b' in
    let f = λ (x : ActionDefinition).
      done (preprocess_retry services x.retries b.attempts (action_error services p)) in
    run-after_branch services wf o before after b p w h
    ∙ rw (m, str_eq_ne p.error_code "" c)
        (ap (λ x. pass k (pass f (or_crash x w))) found
          ∙ ap (λ r. pass k (done r w)) over
          ∙ close_or-ready services o before after b p w)

-- A result for an action that is none of the saved branches is an internal error, and changes
-- nothing.
parallel-stranger :
    (services : Services) (wf : Workflow) (o : ParallelState) (bs : List Branch)
    (p : ActionResultPayload) (w : World)
    → All (Differs p.action_id) bs
    → (logic services wf o).run (branches bs) (result p) w
      ≡ (failed (internal (new "action wasn't expected")), w)
unfolding logic run on_wake on_results on_found as_branches as_results
parallel-stranger services wf o bs p w h =
    ap (λ x. on_found services o bs p x w) (scan-misses p.action_id bs h)
