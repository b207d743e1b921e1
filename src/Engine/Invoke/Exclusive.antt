-- ===== src/Engine/Invoke/Exclusive.antt =====
-- Invocations that are refused: of an exclusive workflow, and by a timer of one without a start.
use direktiv.Base.{
  suc, String, Bool, true, false, ◌&&◌, List, [], ◌∷◌, ◌++◌, none, some, ◌≡◌, ap, sym, ◌∙◌, inl,
  inr, In, if◌then◌else◌, arith, eq_iff,
}
use direktiv.Model.Value.{Value, object, end}
use direktiv.Model.Workflow.{Workflow}
use direktiv.Engine.Errors.{new_internal_error}
use direktiv.Engine.Services.{Services, stored_workflow}
use direktiv.Engine.Instance.{close, unlock}
use direktiv.Engine.Action.{
  found_workflow, new_workflow_logic_instance, next_id, hidden, is_default_start,
}
use direktiv.Engine.World.{
  World, returned, failed, panicked, Instance, done, put_instance, pass, ◌>>=◌, ◌>>◌,
}
use direktiv.Engine.Invoke.{
  new_instance, create, prepare_inserted, prepare_created, prepare_invoke, cron_started,
  cron_created, cron_invoke, refuse, bad_start,
}
use direktiv.Engine.Invoke.Table.{
  no_error, InstanceRow, Database, insertion, any_pending, row_of, add_workflow_instance, exclusion,
}

any_pending-In :
    (r : InstanceRow) (rows : List InstanceRow)
    → In r rows
    → r.status ≡ "pending"
    → any_pending rows ≡ true
unfolding any_pending
any_pending-In r [] i e = absurd i
any_pending-In r (x ∷ rows) (inl same) e =
    let pending : x.status ≡ "pending" = ap (λ (y : InstanceRow). y.status) (sym same) ∙ e in
    ground (arith, eq_iff x.status "pending")
any_pending-In r (x ∷ rows) (inr i) e = let ih = any_pending-In r rows i e in ground arith

-- The instance that is made, and the world after that.
abbrev pub made : Services → String → String → Value → Workflow → World → Instance
made services namespace name input wf w =
    new_instance namespace name (services.fresh w.tick) input wf

abbrev pub after_making : Services → String → String → Value → Workflow → World → World
after_making services namespace name input wf w = record w {
  tick = suc w.tick;
  instance = made services namespace name input wf w;
}

create-made :
    (services : Services) (namespace name : String) (input : Value) (wf : Workflow) (w : World)
    → services.find_workflow namespace name ≡ stored_workflow true (some wf)
    → create services namespace name input w ≡ (
      returned (made services namespace name input wf w),
      after_making services namespace name input wf w,
    )
unfolding create new_workflow_logic_instance next_id
create-made services namespace name input wf w h =
    ap
      (λ s.
        pass
          (λ v. next_id services >>= λ suffix.
            put_instance (new_instance namespace name suffix input v)
            >> done (new_instance namespace name suffix input v))
          (found_workflow s w))
      h

-- A call from outside of an exclusive workflow fails while any instance in the table is pending, of
-- whichever workflow. No instance is returned, no lock is kept, and a failed row is added.
pub exclusive-refused :
    (services : Services) (namespace name workflow_id : String) (input : Value) (wf : Workflow)
    (r : InstanceRow) (db : Database) (w : World)
    → services.find_workflow namespace name ≡ stored_workflow true (some wf)
    → is_default_start wf.start ≡ true
    → wf.exclusive ≡ true
    → In r db.rows
    → r.status ≡ "pending"
    → db.answer ≡ no_error
    → prepare_invoke services namespace name workflow_id input db w ≡ (
      (failed exclusion, after_making services namespace name input wf w),
      db.rows ++ (row_of services.now name (made services namespace name input wf w).id true ∷ []),
    )
unfolding prepare_invoke prepare_created prepare_inserted add_workflow_instance insertion close
    unlock new_internal_error
exclusive-refused services namespace name workflow_id input wf r db w h start exclusive i e answer =
    let next = after_making services namespace name input wf w in
    let new = made services namespace name input wf w in
    let rows_if = λ (b : Bool). db.rows ++ (row_of services.now name new.id b ∷ []) in
    let add = add_workflow_instance services.now name new.id false wf.exclusive db in
    let blocked : (wf.exclusive && any_pending db.rows) ≡ true =
      ap (λ b. b && any_pending db.rows) exclusive ∙ any_pending-In r db.rows i e in
    ap (λ z. prepare_created services name workflow_id db (hidden z.0, z.1))
      (create-made services namespace name input wf w h)
    ∙ ap
        (λ b.
          if b then prepare_inserted workflow_id new add next else refuse bad_start db.rows next)
        start
    ∙ ap
        (λ o.
          prepare_inserted workflow_id new
            (insertion o false (wf.exclusive && any_pending db.rows) db.rows
              (rows_if (wf.exclusive && any_pending db.rows)))
            next)
        answer
    ∙ ap
        (λ b.
          prepare_inserted workflow_id new (insertion no_error false b db.rows (rows_if b)) next)
        blocked

-- A timer that fires for an active workflow without a start makes the server panic.
cron-no_start :
    (services : Services) (namespace name workflow_id : String) (wf : Workflow) (db : Database)
    (w : World)
    → services.find_workflow namespace name ≡ stored_workflow true (some wf)
    → wf.start ≡ none
    → cron_invoke services namespace name workflow_id db w
      ≡ ((panicked, after_making services namespace name (object end) wf w), db.rows)
unfolding cron_invoke cron_created close unlock
cron-no_start services namespace name workflow_id wf db w h no_start =
    let next = after_making services namespace name (object end) wf w in
    let new = made services namespace name (object end) wf w in
    ap (λ z. cron_created services name workflow_id db (hidden z.0, z.1))
      (create-made services namespace name (object end) wf w h)
    ∙ ap (λ s. cron_started services name workflow_id db new s next) no_start
