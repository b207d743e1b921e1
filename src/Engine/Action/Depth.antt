-- ===== src/Engine/Action/Depth.antt =====
-- How deep subflows are nested.
use direktiv.Base.{
  new, if◌then◌else◌, subst, sym, ℕ, suc, ◌≤◌, ◌≡◌, refl, String, Bool, true, false, ◌∷◌, Option,
  none, some, inl, inr, arith, Bool-cases, ltb, ◌∙◌, ap,
}
use direktiv.Model.Value.{Value}
use direktiv.Model.Workflow.{Workflow}
use direktiv.Engine.Errors.{Failure, uncatchable}
use direktiv.Engine.Services.{Services}
use direktiv.Engine.World.{
  World, Outcome, returned, failed, panicked, M, Record, InvokedBy, caller, SubflowCaller,
  invoked_subflow, pass,
}
use direktiv.Engine.Services.{StoredWorkflow, no_workflow, query_failed, stored_workflow}
use direktiv.Engine.World.{nobody, garbled, the_record, or_crash, answer_of}
use direktiv.Engine.Run.Cases.{pass-returned, the_record-stored, the_record-state}
use direktiv.Engine.Errors.{other}
use direktiv.Engine.World.{◌>>=◌, fail}
use direktiv.Engine.Action.{
  is_default_start, child_added, subflow_caller, hiding, loaded_workflow, found_workflow,
  subflow_invoke, caller_depth, add_child, start_data, max_subflow_depth,
  new_workflow_logic_instance, next_id,
}

-- The depth of an instance that was invoked so: no call is above it, or one more than above its
-- caller.
abbrev pub HasDepth : InvokedBy → ℕ → Type 0
HasDepth nobody n = n ≡ 0
HasDepth garbled n = ⊥
HasDepth (caller cc) n = n ≡ suc cc.depth

-- Five at most, and that of the instance that has the record.
abbrev pub MayInvoke : Record → ℕ → Type 0
MayInvoke r n = HasDepth r.invoked_by n × (n ≤ 5)

-- What a subflow that was started is told of its caller.
abbrev pub Started : String → String → Value → World → Outcome String × World → Type 0
Started state name input w (returned id, w') =
    (c : SubflowCaller) × (r : Record) × (w'.effects
      ≡ invoked_subflow name c (start_data input) ∷ w.effects)
    × (w.instance.rec ≡ some r)
    × MayInvoke r c.depth
    × (c.instance_id ≡ w.instance.id)
    × (c.state ≡ state)
    × (c.step ≡ w.instance.step)
Started state name input w (failed e, w') = w'.effects ≡ w.effects
Started state name input w (panicked, w') = w'.effects ≡ w.effects

child_added-Started :
    (state name : String) (depth : ℕ) (input : Value) (id : String) (answer : Option Failure)
    (r : Record) (w w' : World)
    → w.instance.rec ≡ some r
    → MayInvoke r depth
    → w'.effects ≡ w.effects
    → Started state name input w
        (child_added name (subflow_caller w.instance state depth) input id answer w')
child_added-Started state name depth input id (some e) r w w' is_r h p = p
child_added-Started state name depth input id none r w w' is_r h p = (
  subflow_caller w.instance state depth,
  r,
  ap (λ es. invoked_subflow name (subflow_caller w.instance state depth) (start_data input) ∷ es) p,
  is_r,
  h,
  refl,
  refl,
  refl,
)

add_child-Started :
    (services : Services) (state name : String) (depth : ℕ) (input : Value) (r : Record) (w : World)
    → w.instance.rec ≡ some r
    → MayInvoke r depth
    → Started state name input w
        (add_child services name (subflow_caller w.instance state depth) input w)
unfolding add_child next_id
add_child-Started services state name depth input r w is_r h =
    child_added-Started state name depth input (services.fresh w.tick) (answer_of w.writes) r w _
      is_r h refl

-- The world is as before, and what is returned has the property.
abbrev Keeps : {A : Type 0} → (A → Type 0) → World → Outcome A × World → Type 0
Keeps P w (returned a, w') = P a × (w' ≡ w)
Keeps P w (failed e, w') = w' ≡ w
Keeps P w (panicked, w') = w' ≡ w

pass-Started :
    {A : Type 0} (P : A → Type 0) (state name : String) (input : Value) (w : World)
    (k : A → M String) (o : Outcome A × World)
    → Keeps P w o
    → ((a : A) → P a → Started state name input w (k a w))
    → Started state name input w (pass k o)
pass-Started P state name input w k (returned a, w') h f =
    subst (λ x. Started state name input w (k a x)) (sym h.1) (f a h.0)
pass-Started P state name input w k (failed e, w') h f = ap (λ (x : World). x.effects) h
pass-Started P state name input w k (panicked, w') h f = ap (λ (x : World). x.effects) h

caller_depth-Keeps :
    (by : InvokedBy) (w : World) → Keeps (λ n. HasDepth by n × (n ≤ 5)) w (caller_depth by w)
unfolding caller_depth
caller_depth-Keeps nobody w = ((refl, ground arith), refl)
caller_depth-Keeps garbled w = refl
caller_depth-Keeps (caller cc) w = elim (Bool-cases (ltb max_subflow_depth (suc cc.depth))) [
  | inl e ↦ rw e refl
  | inr e ↦ let few : suc cc.depth ≤ 5 = ground arith in rw e ((refl, few), refl)
]

the_record-Keeps : (w : World) → Keeps (λ r. w.instance.rec ≡ some r) w (the_record w)
the_record-Keeps w = recorded w.instance.rec
  where
    recorded : (o : Option Record) → Keeps (λ r. o ≡ some r) w (or_crash o w)
    recorded none = refl
    recorded (some r) = (refl, refl)

loaded_workflow-Keeps :
    (active : Bool) (wf : Option Workflow) (w : World)
    → Keeps (λ r. Unit {0}) w (hiding (loaded_workflow active wf) w)
loaded_workflow-Keeps false wf w = refl
loaded_workflow-Keeps true none w = refl
loaded_workflow-Keeps true (some wf) w = (tt, refl)

found-Keeps :
    (a : StoredWorkflow) (w : World) → Keeps (λ r. Unit {0}) w (hiding (found_workflow a) w)
found-Keeps no_workflow w = refl
found-Keeps (query_failed e) w = refl
found-Keeps (stored_workflow active wf) w = loaded_workflow-Keeps active wf w

-- Whatever a state starts a subflow with, either nothing is started, or one subflow is, with the
-- instance, the state and the step as its caller. The depth that goes with them is that of the
-- calling instance: zero if no other called it, else one more than the depth that its own caller
-- had, and five at most.
pub subflow_invoke-Started :
    (services : Services) (state name : String) (input : Value) (w : World)
    → Started state name input w (subflow_invoke services state name input w)
unfolding subflow_invoke new_workflow_logic_instance
subflow_invoke-Started services state name input w =
    pass-Started (λ r. w.instance.rec ≡ some r) state name input w _ (the_record w)
      (the_record-Keeps w)
      (λ r is_r.
        pass-Started (λ n. MayInvoke r n) state name input w _ (caller_depth r.invoked_by w)
          (caller_depth-Keeps r.invoked_by w)
          (λ depth h.
            pass-Started (λ r. Unit {0}) state name input w _
              (hiding (found_workflow (services.find_workflow w.instance.namespace name)) w)
              (found-Keeps (services.find_workflow w.instance.namespace name) w)
              (λ wf v. elim (Bool-cases (is_default_start wf.start)) [
                | inl e ↦ rw e (add_child-Started services state name depth input r w is_r h)
                | inr e ↦ rw e refl
              ])))

-- An instance whose caller had depth five or more starts no subflow: the call fails by an
-- uncatchable error, and nothing is changed.
subflow_invoke-too_deep :
    (services : Services) (state name : String) (input : Value) (r : Record) (cc : SubflowCaller)
    (w : World)
    → w.instance.rec ≡ some r
    → r.invoked_by ≡ caller cc
    → max_subflow_depth ≤ cc.depth
    → subflow_invoke services state name input w ≡ (
      failed (
          uncatchable "direktiv.limits.depth"
            "instance aborted for exceeding the maximum subflow depth (5)"),
      w,
    )
unfolding subflow_invoke caller_depth
subflow_invoke-too_deep services state name input r cc w h q deep =
    let e : ltb max_subflow_depth (suc cc.depth) ≡ true = ground arith in
    let rest = λ (depth : ℕ).
      hiding (new_workflow_logic_instance services w.instance.namespace name) >>= λ wf.
      if is_default_start wf.start
      then add_child services name (subflow_caller w.instance state depth) input
      else fail (other (new "cannot subflow invoke workflows with such starts")) in
    let k = λ (rec : Record). caller_depth rec.invoked_by >>= rest in
    pass-returned k (the_record w) r (the_record-stored w r h)
    ∙ rw (the_record-state w) (ap (λ by. (caller_depth by >>= rest) w) q ∙ rw e refl)
