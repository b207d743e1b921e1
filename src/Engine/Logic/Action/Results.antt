-- ===== src/Engine/Logic/Action/Results.antt =====
-- What an action state does with the results of its action.
use direktiv.Base.{
  suc, ◌≡◌, ◌≢◌, refl, ◌∙◌, ap, str_eq_ne, str_eq_self, is_empty, not, ◌&&◌, false, [], ◌∷◌, none,
  some, new, arith,
}
use direktiv.Model.Value.{ℤ}
use direktiv.Model.Common.{ActionDefinition}
use direktiv.Model.State.Action.{ActionState}
use direktiv.Model.Workflow.{Workflow}
use direktiv.Engine.Errors.{internal}
use direktiv.Engine.Services.{Services}
use direktiv.Engine.Instance.{save, store_data}
use direktiv.Engine.World.{
  World, returned, failed, Record, ActionSavedata, Savedata, memory, retry_action, result,
  ActionResultPayload, scheduled_retry, pass, or_crash, ◌>>◌,
}
use direktiv.Engine.Retry.{again, preprocess_retry, schedule_wakeup}
use direktiv.Engine.Logic.Noop.{go_to}
use direktiv.Engine.Logic.Branches.{output_value, action_error}
use direktiv.Engine.Logic.Action.{
  run, on_results, as_action, check_id, after_action, again_data, schedule_retry, retry_or_fail,
  logic,
}

-- The identifier of a function's action must be one that ksuid reads; that of a subflow is any text.
abbrev pub Readable : Services → ActionDefinition → ActionSavedata → Type 0
Readable services a sd = (not (is_empty a.function) && not (services.is_ksuid sd.id)) ≡ false

-- Results of an action that is not the one that the state saved are an internal error, and change
-- nothing.
action-stranger :
    (services : Services) (wf : Workflow) (o : ActionState) (a : ActionDefinition)
    (sd : ActionSavedata) (p : ActionResultPayload) (w : World)
    → o.action ≡ some a
    → Readable services a sd
    → p.action_id ≢ sd.id
    → (logic services wf o).run (Savedata.action sd) (result p) w
      ≡ (failed (internal (new "incorrect action ID")), w)
unfolding logic run on_results as_action check_id
action-stranger services wf o a sd p w h k ne =
    let rest =
      λ (x : ActionDefinition). check_id services x sd p >> after_action services o x sd p in
    ap (λ x. pass rest (or_crash x w)) h ∙ rw (k, str_eq_ne p.action_id sd.id ne) refl

accepted :
    (services : Services) (wf : Workflow) (o : ActionState) (a : ActionDefinition)
    (sd : ActionSavedata) (p : ActionResultPayload) (w : World)
    → o.action ≡ some a
    → Readable services a sd
    → p.action_id ≡ sd.id
    → run services wf o (Savedata.action sd) (result p) w ≡ after_action services o a sd p w
unfolding run on_results as_action check_id
accepted services wf o a sd p w h k e =
    let rest =
      λ (x : ActionDefinition). check_id services x sd p >> after_action services o x sd p in
    ap (λ x. pass rest (or_crash x w)) h ∙ rw (k, e, str_eq_self sd.id) refl

-- The results of the awaited action, without an error, are stored under "return", and the state's
-- transition is returned.
action-returns :
    (services : Services) (wf : Workflow) (o : ActionState) (a : ActionDefinition)
    (sd : ActionSavedata) (p : ActionResultPayload) (w : World)
    → o.action ≡ some a
    → Readable services a sd
    → p.action_id ≡ sd.id
    → p.error_code ≡ ""
    → p.error_message ≡ ""
    → (logic services wf o).run (Savedata.action sd) (result p) w
      ≡ (store_data "return" (output_value services p.output) >> go_to o.transform o.transition) w
unfolding logic after_action
action-returns services wf o a sd p w h k e c m =
    accepted services wf o a sd p w h k e ∙ rw (c, m) refl

schedule_retry-saves :
    (o : ActionState) (sd : ActionSavedata) (d : ℤ) (r : Record) (w : World)
    → w.instance.rec ≡ some r
    → w.writes ≡ []
    → ((schedule_retry o sd d w).0 ≡ returned none)
      × ((schedule_retry o sd d w).1.instance.rec
          ≡ some (record r { memory = memory (Savedata.action (again_data sd)) }))
      × ((schedule_retry o sd d w).1.effects
          ≡ scheduled_retry o.id w.instance.step d (retry_action (again_data sd)) ∷ w.effects)
unfolding schedule_retry save schedule_wakeup
schedule_retry-saves o sd d r w h q = (ground arith, ground arith, ground arith)

-- An awaited action that failed and may be tried again makes the instance wait, if the database
-- answers: the memory and the timer both hold one attempt more than before, and no identifier.
pub action-retries :
    (services : Services) (wf : Workflow) (o : ActionState) (a : ActionDefinition)
    (sd : ActionSavedata) (p : ActionResultPayload) (d : ℤ) (r : Record) (w : World)
    → o.action ≡ some a
    → Readable services a sd
    → p.action_id ≡ sd.id
    → p.error_code ≢ ""
    → preprocess_retry services a.retries sd.attempts (action_error services p) ≡ again d
    → w.instance.rec ≡ some r
    → w.writes ≡ []
    → (w' : World) × ((logic services wf o).run (Savedata.action sd) (result p) w
        ≡ (returned none, w'))
      × (w'.instance.rec
          ≡ some (record r {
            memory =
                memory
                  (Savedata.action (record { op = "retry"; id = ""; attempts = suc sd.attempts }));
          }))
      × (w'.effects
          ≡ scheduled_retry o.id w.instance.step d
              (retry_action (record { op = "retry"; id = ""; attempts = suc sd.attempts }))
            ∷ w.effects)
unfolding logic after_action
action-retries services wf o a sd p d r w h k e c again_d rec q =
    let (out, stored, effects) = schedule_retry-saves o sd d r w rec q in
    (
      (schedule_retry o sd d w).1,
      accepted services wf o a sd p w h k e
          ∙ rw (str_eq_ne p.error_code "" c) (
              ap (λ x. retry_or_fail o sd x w) again_d
              ∙ ap (λ x. (x, (schedule_retry o sd d w).1)) out),
      stored,
      effects,
    )
