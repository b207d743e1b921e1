-- ===== src/Engine/Step/Loads.antt =====
-- What `loadWorkflowLogicInstance` accepts, and that a refusal keeps no lock. And what a sound
-- workflow promises the engine's lookups.
use direktiv.Base.{
  lookup-insert_self, ap, refl, ◌∙◌, ◌≡◌, String, Option, none, some, true, false, In, All, subst,
  sym, arith, ◌≢◌, length, lookup, inl, inr, Bool-cases, ℕ,
}
use direktiv.Model.State.{State, get_type, get_transitions}
use direktiv.Model.Workflow.{Workflow}
use direktiv.Model.Workflow.Sound.{IsSound}
use direktiv.Model.Workflow.Lookup.{lookup-target, All-In}
use direktiv.Engine.Instance.{unlock, lock}
use direktiv.Engine.Run.Cases.{Running}
use direktiv.Engine.World.{pass, World, Outcome, returned, failed, panicked, M, Record}
use direktiv.Engine.Run.{StateLogic}
use direktiv.Engine.Step.{
  StoredInstance, no_instance, bad_state_data, bad_workflow, stored_instance, load_stored,
  or_refuse, logic_of, unlock, Init, has_logic, find_logic, load, load_record, load_state,
  refuse_load, last?, is_active, is_out_of_sync, lock_or_refuse,
}

-- An error of the load leaves the instance unlocked.
abbrev pub NoLock : {A : Type 0} → Outcome A × World → Type 0
NoLock (failed e, w) = w.instance.locked ≡ false
NoLock (returned a, w) = Unit {0}
NoLock (panicked, w) = Unit {0}

-- In a sound workflow whose states all have a type that is in the engine's table, each target of
-- each state's transitions has a logic, if the functions of that table accept the states of the
-- workflow: `Transition` does not give up on it.
find_logic-target :
    (init : Init) (o : Workflow) (s : State) (t : String)
    → IsSound o
    → All (λ s. has_logic (get_type s) ≡ true) o.states
    → All (λ s. init o s ≢ none) o.states
    → In s o.states
    → In t (get_transitions s)
    → find_logic init o t ≢ none
unfolding find_logic
find_logic-target init o s t sound typed total i j =
    let (s', found, i', e) = lookup-target o s t sound i j in
    let p = All-In (λ s. has_logic (get_type s) ≡ true) o.states s' typed i' in
    subst (λ x. x ≢ none) (sym (ap (logic_of init o) found ∙ rw p refl))
      (All-In (λ s. init o s ≢ none) o.states s' total i')

refuse_load-unlocks :
    (message : String) (w : World) → NoLock (refuse_load {A = StateLogic} message w)
unfolding refuse_load unlock
refuse_load-unlocks message w = ground arith

or_refuse-unlocks : (o : Option StateLogic) (w : World) → NoLock (or_refuse o w)
or_refuse-unlocks none w = refuse_load-unlocks "workflow cannot resolve state" w
or_refuse-unlocks (some logic) w = tt

load_state-unlocks :
    (init : Init) (wf : Workflow) (name : Option String) (w : World)
    → NoLock (load_state init wf name w)
unfolding load_state
load_state-unlocks init wf none w = tt
load_state-unlocks init wf (some name) w = or_refuse-unlocks (find_logic init wf name) w

load_record-unlocks :
    (init : Init) (wf : Workflow) (step : Option ℕ) (r : Record) (w : World)
    → NoLock (load_record init wf step r w)
unfolding load_record
load_record-unlocks init wf step r w = elim (Bool-cases (is_active r.status)) [
  | inr e ↦ rw e (refuse_load-unlocks _ w)
  | inl e ↦ elim (Bool-cases (is_out_of_sync step (length r.flow))) [
    | inl d ↦ rw (e, d) (refuse_load-unlocks _ w)
    | inr d ↦ rw (e, d) (load_state-unlocks init wf (last? r.flow) _)
  ]
]

lock-NoLock : (w : World) → w.instance.locked ≡ false → NoLock (lock_or_refuse w)
unfolding lock
lock-NoLock w h = ground arith

pass-NoLock :
    {A B : Type 0} (k : A → M B) (r : Outcome A × World)
    → NoLock r
    → ((a : A) (w : World) → NoLock (k a w))
    → NoLock (pass k r)
pass-NoLock k (returned a, w) h f = f a w
pass-NoLock k (failed e, w) h f = h
pass-NoLock k (panicked, w) h f = tt

load_stored-unlocks :
    (init : Init) (stored : StoredInstance) (step : Option ℕ) (w : World)
    → NoLock (load_stored init stored step w)
load_stored-unlocks init no_instance step w = refuse_load-unlocks "workflow instance not found" w
load_stored-unlocks init bad_state_data step w =
    refuse_load-unlocks "cannot load saved workflow state data" w
load_stored-unlocks init bad_workflow step w =
    refuse_load-unlocks "cannot load saved workflow definition" w
load_stored-unlocks init (stored_instance namespace r wf) step w =
    load_record-unlocks init wf step r _

-- Whichever way a load fails, at the lock, at an instance that is missing, unreadable or
-- terminated, at another step than the one expected or at a state without logic, an instance that
-- was not locked before is not locked afterwards.
pub load-NoLock :
    (init : Init) (stored : StoredInstance) (step : Option ℕ) (w : World)
    → w.instance.locked ≡ false
    → NoLock (load init stored step w)
unfolding load
load-NoLock init stored step w h =
    pass-NoLock (λ _. load_stored init stored step) (lock_or_refuse w) (lock-NoLock w h)
      (λ _ w'. load_stored-unlocks init stored step w')

-- What a load that succeeds has found: the instance is active and at the step that the caller
-- expects, its last state has the logic that is returned, and the instance is locked, has its record
-- at hand and is in step with it.
abbrev pub Accepted : Init → Workflow → Option ℕ → Record → Outcome StateLogic × World → Type 0
Accepted init wf step r (returned logic, w) =
    (is_active r.status ≡ true)
    × (is_out_of_sync step (length r.flow) ≡ false)
    × ((name : String) × (last? r.flow ≡ some name) × (find_logic init wf name ≡ some logic))
    × Running w r
    × (w.instance.wf ≡ wf)
    × (w.instance.state_data ≡ r.state_data)
    × (w.instance.step ≡ length r.flow)
Accepted init wf step r (failed e, w) = Unit {0}
Accepted init wf step r (panicked, w) = Unit {0}

refuse_load-Accepted :
    (init : Init) (wf : Workflow) (step : Option ℕ) (r : Record) (message : String) (w : World)
    → Accepted init wf step r (refuse_load message w)
unfolding refuse_load unlock
refuse_load-Accepted init wf step r message w = ground arith

abbrev IsLocked : Outcome (Unit {0}) × World → Type 0
IsLocked (returned u, w) = (w.instance.locked ≡ true) × (lookup w.instance.id w.cancels ≡ some tt)
IsLocked (failed e, w) = Unit {0}
IsLocked (panicked, w) = Unit {0}

-- The instance that the record is put into.
abbrev loaded : World → Workflow → Record → World
loaded w wf r = record w {
  instance = record w.instance {
    rec = some r;
    wf = wf;
    state_data = r.state_data;
    step = length r.flow;
  };
}

load_state-Accepted :
    (init : Init) (wf : Workflow) (step : Option ℕ) (r : Record) (w : World)
    → (is_active r.status ≡ true)
    → (is_out_of_sync step (length r.flow) ≡ false)
    → Running (loaded w wf r) r
    → Accepted init wf step r (load_state init wf (last? r.flow) (loaded w wf r))
unfolding load_state
load_state-Accepted init wf step r w e d h = named (last? r.flow) refl
  where
    resolved :
        (name : String) (o : Option StateLogic)
        → last? r.flow ≡ some name
        → find_logic init wf name ≡ o
        → Accepted init wf step r (or_refuse o (loaded w wf r))
    resolved name none p q =
        refuse_load-Accepted init wf step r "workflow cannot resolve state" (loaded w wf r)
    resolved name (some logic) p q = (e, d, (name, p, q), h, refl, refl, refl)

    named :
        (o : Option String)
        → last? r.flow ≡ o
        → Accepted init wf step r (load_state init wf o (loaded w wf r))
    named none p = tt
    named (some name) p = resolved name (find_logic init wf name) p refl

load_record-Accepted :
    (init : Init) (wf : Workflow) (step : Option ℕ) (r : Record) (w : World)
    → (w.instance.locked ≡ true)
    → (lookup w.instance.id w.cancels ≡ some tt)
    → Accepted init wf step r (load_record init wf step r w)
unfolding load_record
load_record-Accepted init wf step r w l c = elim (Bool-cases (is_active r.status)) [
  | inr e ↦ rw e (refuse_load-Accepted init wf step r _ w)
  | inl e ↦ elim (Bool-cases (is_out_of_sync step (length r.flow))) [
    | inl d ↦ rw (e, d) (refuse_load-Accepted init wf step r _ w)
    | inr d ↦
        rw (e, d)
          (load_state-Accepted init wf step r w e d
            (record { stored = refl; locked = l; registered = c }))
  ]
]

lock-registers : (w : World) → IsLocked (lock_or_refuse w)
unfolding lock
lock-registers w = ground (arith, lookup-insert_self w.instance.id tt w.cancels)

pass-Accepted :
    (init : Init) (namespace : String) (wf : Workflow) (step : Option ℕ) (r : Record)
    (o : Outcome (Unit {0}) × World)
    → IsLocked o
    → Accepted init wf step r (pass (λ _. load_stored init (stored_instance namespace r wf) step) o)
pass-Accepted init namespace wf step r (returned a, w) h =
    load_record-Accepted init wf step r _ h.0 h.1
pass-Accepted init namespace wf step r (failed e, w) h = tt
pass-Accepted init namespace wf step r (panicked, w) h = tt

-- A load that succeeds has an active instance (pending or running) at the step that the caller
-- expects, if it names one, and returns the logic of the last state of its flow. The instance is
-- then locked and registered, has its record, its workflow and its state data at hand, and its
-- step is the length of the flow.
pub load-Accepted :
    (init : Init) (namespace : String) (wf : Workflow) (step : Option ℕ) (r : Record) (w : World)
    → Accepted init wf step r (load init (stored_instance namespace r wf) step w)
unfolding load
load-Accepted init namespace wf step r w =
    pass-Accepted init namespace wf step r (lock_or_refuse w) (lock-registers w)
