-- ===== src/Engine/Logic/ForEach/Ready.antt =====
-- When a foreach state ends.
use direktiv.Base.{◌+◌, ◌≡◌, refl, ◌∙◌, ap, List, ◌∷◌, ◌++◌, length}
use direktiv.Model.State.ForEach.{ForEachState}
use direktiv.Model.Value.{Fields, object}
use direktiv.Base.{some}
use direktiv.Engine.World.{Record}
use direktiv.Engine.Logic.Branches.Stored.{resolved, output_of, advance-resolved, closed}
use direktiv.Model.Workflow.{Workflow}
use direktiv.Engine.Services.{Services}
use direktiv.Engine.World.{World, Branch, branches, result, ActionResultPayload, pass, or_crash}
use direktiv.Engine.Logic.Branches.{output_value, as_branches, as_results}
use direktiv.Engine.Logic.Branches.Scan.{
  Awaits, count_complete, scan-finds, set-append, get_elem?-append, ready-all_complete,
}
use direktiv.Engine.Logic.ForEach.{run, on_wake, on_results, on_found, after_branch, logic}

-- An action of a foreach state, with a record and an object as its data, returns without an error.
-- The state ends exactly when the branches of all the other elements are complete: the array of
-- the results, in the order of the elements and with the output of this action in its place, is
-- stored as `return` in the data, and the transition is returned, with nothing else changed.
-- Otherwise the state waits, and the branches are saved with this one closed with its output;
-- where the database fails then, the state fails and its record is gone.
pub foreach-ready :
    (services : Services) (wf : Workflow) (o : ForEachState) (before after : List Branch)
    (b : Branch) (p : ActionResultPayload) (m : Fields) (r : Record) (w : World)
    → w.instance.rec ≡ some r
    → w.instance.state_data ≡ object m
    → Awaits p.action_id before b after
    → p.error_code ≡ ""
    → p.error_message ≡ ""
    → (logic services wf o).run (branches (before ++ (b ∷ after))) (result p) w
      ≡ resolved before after b (output_of services p.output) o.transform o.transition m r w
unfolding logic run on_wake on_results on_found as_branches as_results after_branch
foreach-ready services wf o before after b p m r w stored is_data h c e =
    let bs = before ++ (b ∷ after) in
    let n = count_complete before + count_complete after in
    let k = λ (x : Branch). after_branch services o bs (length before) n x p in
    ap (λ x. on_found services o bs p x w)
      (scan-finds p.action_id before after b h.named h.incomplete h.others_before h.others_after)
    ∙ ap (λ x. pass k (or_crash x w)) (get_elem?-append before after b)
    ∙ rw
        (
          c,
          e,
          ready-all_complete before after b,
          set-append before after b (closed (output_value services p.output) b),
        )
        refl
    ∙ advance-resolved services o.transform o.transition before after b p.output m r w stored
        is_data
