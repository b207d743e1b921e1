-- ===== src/Engine/Wake/Frees.antt =====
-- What becomes of the lock of an instance that is woken.
use direktiv.Base.{
  List, ℕ, String, Bool, true, false, ◌≡◌, refl, ◌∙◌, sym, ap, subst, [], Option, none, some, inl,
  new, arith,
}
use direktiv.Model.Workflow.{Workflow}
use direktiv.Engine.Errors.{Failure, uncatchable, other}
use direktiv.Engine.Services.{Services}
use direktiv.Engine.Instance.{instance_memory, decoded, close, unlock}
use direktiv.Engine.World.{
  World, Outcome, returned, failed, panicked, M, Record, Savedata, memory, corrupt, nothing,
  no_wake, sleep, result, Wakedata, CloudEvent, woken_by, ActionResultPayload, pass, or_crash,
  the_record, ◌>>=◌, answer_of,
}
use direktiv.Engine.Run.{StateLogic, attempt, run_state}
use direktiv.Engine.Run.Cases.{
  Running, Ended, failed_record, pass-returned, the_record-stored, the_record-state,
}
use direktiv.Engine.Run.Catch.{run_state-Ended}
use direktiv.Engine.Run.Settles.{Settled, run_state-Settled}
use direktiv.Engine.Step.{Init, StoredInstance, stored_instance, load}
use direktiv.Engine.Step.Loads.{NoLock, load-NoLock, Accepted, load-Accepted}
use direktiv.Engine.Wake.{
  load_error, wake_events_waiter, after_load, sleep_wakeup, retry_loaded, retry_wakeup, closing,
  memory_or_close, run_saved, report_action_results, resume, cancel_instance, cancel_error,
}

-- The instance is unlocked, or goes on to a named state; or the program panicked.
abbrev pub Frees : Outcome (Unit {0}) × World → Type 0
Frees (returned u, w) = Settled (returned u, w)
Frees (failed e, w) = w.instance.locked ≡ false
Frees (panicked, w) = Unit {0}

Settled-Frees : (o : Outcome (Unit {0}) × World) → Settled o → Frees o
Settled-Frees (returned u, w) h = h
Settled-Frees (failed e, w) h = absurd h
Settled-Frees (panicked, w) h = tt

run_state-Frees :
    (services : Services) (logic : StateLogic) (savedata : Savedata) (wakedata : Wakedata)
    (e : Option Failure) (w : World)
    → Frees (run_state services logic savedata wakedata e w)
run_state-Frees services logic savedata wakedata e w =
    Settled-Frees (run_state services logic savedata wakedata e w)
      (run_state-Settled services logic savedata wakedata e w)

pass-Frees :
    {A : Type 0} (k : A → M (Unit {0})) (o : Outcome A × World)
    → NoLock o
    → ((a : A) (w : World) → Frees (k a w))
    → Frees (pass k o)
pass-Frees k (returned a, w) h f = f a w
pass-Frees k (failed e, w) h f = h
pass-Frees k (panicked, w) h f = tt

after_load-Frees :
    (k : StateLogic → M (Unit {0})) (o : Outcome StateLogic × World)
    → NoLock o
    → ((a : StateLogic) (w : World) → Frees (k a w))
    → Frees (after_load k o)
after_load-Frees k (returned a, w) h f = f a w
after_load-Frees k (failed e, w) h f = inl h
after_load-Frees k (panicked, w) h f = tt

closing-NoLock : (r : Outcome Savedata × World) → NoLock (closing r)
unfolding close unlock
closing-NoLock (returned a, w) = tt
closing-NoLock (failed e, w) = ground arith
closing-NoLock (panicked, w) = tt

run_saved-Frees :
    (services : Services) (wakedata : Wakedata) (e : Option Failure) (logic : StateLogic)
    (w : World)
    → Frees (run_saved services wakedata e logic w)
unfolding run_saved
run_saved-Frees services wakedata e logic w =
    pass-Frees (λ savedata. run_state services logic savedata wakedata e) (memory_or_close w)
      (closing-NoLock ((the_record >>= instance_memory) w))
      (λ savedata w'. run_state-Frees services logic savedata wakedata e w')

load_error-NoLock : (o : Outcome StateLogic × World) → NoLock o → NoLock (load_error o)
load_error-NoLock (returned a, w) h = h
load_error-NoLock (failed e, w) h = h
load_error-NoLock (panicked, w) h = h

-- An instance that is not locked, and that is woken from its sleep, by the results of an action,
-- by events, to resume or to be cancelled, is unlocked once that is over or goes on to a named
-- state, whether it could be loaded or not and however its state ends. The one other way out is a
-- panic.
pub wake-Frees :
    (services : Services) (init : Init) (stored : StoredInstance) (step : ℕ)
    (payload : ActionResultPayload) (events : List CloudEvent) (code message : String) (soft : Bool)
    (w : World)
    → w.instance.locked ≡ false
    → Frees (sleep_wakeup services init stored step w)
      × Frees (report_action_results services init stored step payload w)
      × Frees (wake_events_waiter services init stored step events w)
      × Frees (resume services init stored step w)
      × Frees (cancel_instance services init stored code message soft w)
unfolding sleep_wakeup report_action_results wake_events_waiter resume cancel_instance
wake-Frees services init stored step payload events code message soft w h =
    let at_step = load-NoLock init stored (some step) w h in
    (
      after_load-Frees (λ logic. run_state services logic nothing sleep none)
          (load init stored (some step) w) at_step
          (λ logic w'. run_state-Frees services logic nothing sleep none w'),
      pass-Frees (run_saved services (result payload) none) (load init stored (some step) w) at_step
          (λ logic w'. run_saved-Frees services (result payload) none logic w'),
      pass-Frees (run_saved services (woken_by events) none)
          (load_error (load init stored (some step) w))
          (load_error-NoLock (load init stored (some step) w) at_step)
          (λ logic w'. run_saved-Frees services (woken_by events) none logic w'),
      pass-Frees (λ logic. run_state services logic nothing no_wake none)
          (load init stored (some step) w) at_step
          (λ logic w'. run_state-Frees services logic nothing no_wake none w'),
      pass-Frees (run_saved services no_wake (some (cancel_error services soft code message)))
          (load init stored none w) (load-NoLock init stored none w h)
          (λ logic w'.
            run_saved-Frees services no_wake (some (cancel_error services soft code message)) logic
              w'),
    )

memory-corrupt :
    (r : Record) (w : World)
    → r.memory ≡ corrupt
    → instance_memory r w ≡ (failed (other (new "cannot decode the savedata")), w)
unfolding instance_memory
memory-corrupt r w c = ap (λ m. decoded m w) c

memory-readable :
    (r : Record) (saved : Savedata) (w : World)
    → w.instance.rec ≡ some r
    → r.memory ≡ memory saved
    → memory_or_close w ≡ (returned saved, w)
unfolding instance_memory
memory-readable r saved w h m =
    ap (λ o. closing (pass instance_memory (or_crash o w))) h ∙ ap (λ x. closing (decoded x w)) m

loaded-Running :
    (init : Init) (namespace : String) (wf : Workflow) (step : Option ℕ) (r : Record)
    (logic : StateLogic) (w w' : World)
    → load init (stored_instance namespace r wf) step w ≡ (returned logic, w')
    → Running w' r
loaded-Running init namespace wf step r logic w w' h =
    let (a, b, c, run, d, e, g) =
      subst (Accepted init wf step r) h (load-Accepted init namespace wf step r w) in
    run

-- An instance that is woken to try again, and whose memory is no base64 text, is not let go: the
-- handler returns the error with the lock still held.
pub retry_wakeup-keeps_lock :
    (services : Services) (init : Init) (namespace : String) (wf : Workflow) (step : ℕ)
    (wakedata : Wakedata) (r : Record) (logic : StateLogic) (w w' : World)
    → load init (stored_instance namespace r wf) (some step) w ≡ (returned logic, w')
    → r.memory ≡ corrupt
    → (e : Failure) × (retry_wakeup services init (stored_instance namespace r wf) step wakedata w
        ≡ (failed e, w'))
      × (w'.instance.locked ≡ true)
unfolding retry_wakeup retry_loaded
retry_wakeup-keeps_lock services init namespace wf step wakedata r logic w w' h c =
    let run = loaded-Running init namespace wf (some step) r logic w w' h in
    let rest = λ (savedata : Savedata). run_state services logic savedata wakedata none in
    let k = λ (rec : Record). instance_memory rec >>= rest in
    (
      other (new "cannot decode the savedata"),
      ap (after_load (retry_loaded services wakedata)) h
          ∙ pass-returned k (the_record w') r (the_record-stored w' r run.stored)
          ∙ rw (the_record-state w') (ap (pass rest) (memory-corrupt r w' c)),
      run.locked,
    )

-- An instance that is loaded and whose memory can be read always ends by a hard cancellation, if
-- the database answers: with the status "failed", and the code and the message of the cancellation
-- unless it has an error already. Its lock and its resources are given up and its caller is told.
pub cancel_instance-Ended :
    (services : Services) (init : Init) (namespace : String) (wf : Workflow) (r : Record)
    (saved : Savedata) (code message : String) (logic : StateLogic) (w w' : World)
    → load init (stored_instance namespace r wf) none w ≡ (returned logic, w')
    → r.memory ≡ memory saved
    → answer_of w'.writes ≡ none
    → Ended
        (cancel_instance services init (stored_instance namespace r wf) code message false w)
        (failed_record r "failed" code (services.sprintf message []))
        none
unfolding cancel_instance run_saved attempt
cancel_instance-Ended services init namespace wf r saved code message logic w w' h m a =
    let run = loaded-Running init namespace wf none r logic w w' h in
    let e = uncatchable code (services.sprintf message []) in
    let k = λ (savedata : Savedata). run_state services logic savedata no_wake (some e) in
    subst (λ o. Ended o (failed_record r "failed" code (services.sprintf message [])) none)
      (sym (
        ap (pass (run_saved services no_wake (some e))) h
        ∙ ap (pass k) (memory-readable r saved w' run.stored m)))
      (run_state-Ended services logic saved no_wake (some e) e r w' w' refl run a tt)
