-- ===== src/Engine/Run/Settles.antt =====
-- However a run of a state ends, the instance is let go or goes on.
use direktiv.Base.{
  String, is_empty, ◌≡◌, refl, ◌≢◌, ◌⊎◌, inl, inr, Bool, false, List, [], ◌∷◌, Option, none, some,
  arith, eq_iff, Bool-cases,
}
use direktiv.Model.Value.{Value, text}
use direktiv.Engine.Errors.{Failure, catchable, uncatchable, internal, other}
use direktiv.Engine.Services.{Services}
use direktiv.Engine.Instance.{
  complete_state, free_resources, close, wake_caller, set_status, update_or_panic, store_data,
}
use direktiv.Engine.World.{
  World, Outcome, returned, failed, panicked, M, Record, Memory, memory, corrupt, Savedata,
  Wakedata, Effect, went_on, pass, ◌>>=◌, ◌>>◌, the_record, write,
}
use direktiv.Model.Common.{ErrorDefinition}
use direktiv.Engine.Run.{
  end_instance, completed, go_on, caught, forget, cancel_memory, is_nothing, StateTransition,
  StateLogic, StateChild, finish, complete_instance, transition_state, fail_instance, catch_error,
  handle, cancel_saved, cancel_children, cancel_each, cancel_child, failure, attempt, run_state,
  find_catch, ignore, error_value, resume,
}

-- The run ended without an error, and the instance is unlocked or its transition to a named state
-- is the last thing that was started. Or the program panicked.
abbrev pub Settled : Outcome (Unit {0}) × World → Type 0
Settled (returned u, w) =
    (w.instance.locked ≡ false)
    ⊎ ((next : String) × (rest : List Effect) × (w.effects ≡ went_on next ∷ rest) × (next ≢ ""))
Settled (failed e, w) = ⊥
Settled (panicked, w) = Unit {0}

abbrev pub NoError : {A : Type 0} → Outcome A × World → Type 0
NoError (failed e, w) = ⊥
NoError (returned a, w) = Unit {0}
NoError (panicked, w) = Unit {0}

pass-Settled :
    {A : Type 0} (k : A → M (Unit {0})) (r : Outcome A × World)
    → NoError r
    → ((a : A) (w : World) → Settled (k a w))
    → Settled (pass k r)
pass-Settled k (returned a, w) h f = f a w
pass-Settled k (failed e, w) h f = h
pass-Settled k (panicked, w) h f = tt

pass-NoError :
    {A B : Type 0} (k : A → M B) (r : Outcome A × World)
    → NoError r
    → ((a : A) (w : World) → NoError (k a w))
    → NoError (pass k r)
pass-NoError k (returned a, w) h f = f a w
pass-NoError k (failed e, w) h f = h
pass-NoError k (panicked, w) h f = tt

the_record-NoError : (w : World) → NoError (the_record w)
the_record-NoError w = ground arith

close-Settled : (w : World) → Settled (close w)
unfolding close
close-Settled w = ground arith

wake_caller-NoError : (output : Option Value) (w : World) → NoError (wake_caller output w)
unfolding wake_caller
wake_caller-NoError output w = ground arith

finish-Settled : (rec : Record) (output : Option Value) (w : World) → Settled (finish rec output w)
unfolding finish free_resources
finish-Settled rec output w =
    pass-Settled (λ _. close) (wake_caller output _) (wake_caller-NoError output _)
      (λ _ w'. close-Settled w')

update_or_panic-NoError : (rec : Record) (w : World) → NoError (update_or_panic rec w)
unfolding update_or_panic
update_or_panic-NoError rec w = ground arith

complete_state-NoError :
    (rec : Record) (next code : String) (retrying : Bool) (w : World)
    → NoError (complete_state rec next code retrying w)
unfolding complete_state
complete_state-NoError rec next code retrying w = ground arith

set_status-NoError :
    (status code message : String) (w : World) → NoError (set_status status code message w)
unfolding set_status
set_status-NoError status code message w = ground arith

fail_instance-Settled :
    (status code message : String) (w : World) → Settled (fail_instance status code message w)
unfolding fail_instance
fail_instance-Settled status code message w =
    pass-Settled (λ _. the_record >>= λ rec. finish rec none) (set_status status code message w)
      (set_status-NoError status code message w)
      (λ _ w'.
        pass-Settled (λ rec. finish rec none) (the_record w') (the_record-NoError w')
          (λ rec w''. finish-Settled rec none w''))

end_instance-Settled :
    (rec : Record) (output : Value) (answer : Option Failure) (w : World)
    → Settled (end_instance rec output answer w)
unfolding end_instance
end_instance-Settled rec output (some e) w = finish-Settled rec none w
end_instance-Settled rec output none w = finish-Settled (completed rec output) (some output) _

complete_instance-Settled : (w : World) → Settled (complete_instance w)
unfolding complete_instance
complete_instance-Settled w =
    pass-Settled (λ rec. write >>= λ answer. end_instance rec w.instance.state_data answer)
      (the_record w) (the_record-NoError w)
      (λ rec w'. end_instance-Settled rec w.instance.state_data _ _)

go_on-Settled : (next : String) (w : World) → Settled (go_on next w)
unfolding go_on
go_on-Settled next w = elim (Bool-cases (is_empty next)) [
  | inl e ↦ rw e (complete_instance-Settled w)
  | inr e ↦ rw e (inr (next, w.effects, refl, λ q. ground (arith, eq_iff next "")))
]

transition_state-Settled :
    (t : Option StateTransition) (code : String) (w : World) → Settled (transition_state t code w)
unfolding transition_state
transition_state-Settled none code w = close-Settled w
transition_state-Settled (some t) code w =
    pass-Settled (λ rec. complete_state rec t.next_state code false >> go_on t.next_state)
      (the_record w) (the_record-NoError w)
      (λ rec w'.
        pass-Settled (λ _. go_on t.next_state) (complete_state rec t.next_state code false w')
          (complete_state-NoError rec t.next_state code false w')
          (λ _ w''. go_on-Settled t.next_state w''))

caught-Settled :
    (code message : String) (c : Option ErrorDefinition) (w : World)
    → Settled (caught code message c w)
unfolding caught
caught-Settled code message none w = fail_instance-Settled "failed" code message w
caught-Settled code message (some c) w =
    transition_state-Settled (some (record { next_state = c.transition; transform = text "" })) code
      w

ignore-NoError : (m : M (Unit {0})) (w : World) → NoError (ignore m w)
ignore-NoError m w = forgotten (m w)
  where
    forgotten : (r : Outcome (Unit {0}) × World) → NoError (forget r.0, r.1)
    forgotten (returned a, w) = tt
    forgotten (failed e, w) = tt
    forgotten (panicked, w) = tt

handle-Settled :
    (services : Services) (logic : StateLogic) (e : Failure) (w : World)
    → Settled (handle services logic e w)
unfolding handle catch_error
handle-Settled services logic (uncatchable code message) w =
    fail_instance-Settled "failed" code message w
handle-Settled services logic (catchable code message) w =
    pass-Settled (λ _. caught code message (find_catch services code logic.error_catchers))
      (ignore (store_data "error" (error_value code message)) w)
      (ignore-NoError (store_data "error" (error_value code message)) w)
      (λ _ w'. caught-Settled code message (find_catch services code logic.error_catchers) w')
handle-Settled services logic (internal e) w =
    fail_instance-Settled "crashed" "" "an internal error occurred" w
handle-Settled services logic (other e) w =
    pass-Settled (λ rec. finish rec none) (the_record w) (the_record-NoError w)
      (λ rec w'. finish-Settled rec none w')

cancel_child-NoError : (child : StateChild) (w : World) → NoError (cancel_child child w)
unfolding cancel_child
cancel_child-NoError child w = ground arith

cancel_each-NoError : (children : List StateChild) (w : World) → NoError (cancel_each children w)
unfolding cancel_each
cancel_each-NoError [] w = tt
cancel_each-NoError (child ∷ rest) w =
    pass-NoError (λ _. cancel_each rest) (cancel_child child w) (cancel_child-NoError child w)
      (λ _ w'. cancel_each-NoError rest w')

cancel_memory-NoError :
    (logic : StateLogic) (m : Memory) (w : World) → NoError (cancel_memory logic m w)
unfolding cancel_memory cancel_children
cancel_memory-NoError logic corrupt w = tt
cancel_memory-NoError logic (memory saved) w = elim (Bool-cases (is_nothing saved)) [
  | inl e ↦ rw e tt
  | inr e ↦ rw e (cancel_each-NoError (logic.living_children saved) w)
]

cancel_saved-NoError : (logic : StateLogic) (w : World) → NoError (cancel_saved logic w)
unfolding cancel_saved
cancel_saved-NoError logic w =
    pass-NoError (λ rec. cancel_memory logic rec.memory) (the_record w) (the_record-NoError w)
      (λ rec w'. cancel_memory-NoError logic rec.memory w')

failure-Settled :
    (services : Services) (logic : StateLogic) (e : Failure) (w : World)
    → Settled (failure services logic e w)
unfolding failure
failure-Settled services logic e w =
    pass-Settled (λ _. handle services logic e) (cancel_saved logic w)
      (cancel_saved-NoError logic w) (λ _ w'. handle-Settled services logic e w')

resume-Settled :
    (services : Services) (logic : StateLogic) (r : Outcome (Option StateTransition) × World)
    → Settled (resume services logic r)
resume-Settled services logic (returned t, w) = transition_state-Settled t "" w
resume-Settled services logic (failed e, w) = failure-Settled services logic e w
resume-Settled services logic (panicked, w) = tt

-- Whatever the state's logic does and however it ends, `runState` returns no error, and when it
-- returns, the instance is unlocked, or it keeps its lock for the transition to a named state that
-- was started last. The one other way out is a panic. So no run leaves a lock behind.
pub run_state-Settled :
    (services : Services) (logic : StateLogic) (savedata : Savedata) (wakedata : Wakedata)
    (e : Option Failure) (w : World)
    → Settled (run_state services logic savedata wakedata e w)
unfolding run_state
run_state-Settled services logic savedata wakedata e w =
    resume-Settled services logic (attempt services logic savedata wakedata e w)
