-- ===== src/Engine/Run/Catch.antt =====
-- Which errors of a state end its instance, and which are caught.
use direktiv.Base.{
  String, ◌≡◌, refl, ap, ◌≢◌, true, false, List, [], ◌∷◌, ◌++◌, Option, none, some, All,
}
use direktiv.Model.Value.{text}
use direktiv.Model.Common.{ErrorDefinition}
use direktiv.Engine.Errors.{Failure, catchable, uncatchable, internal, other}
use direktiv.Engine.Services.{Services}
use direktiv.Engine.Instance.{store_data}
use direktiv.Engine.World.{World, failed, Record, Savedata, Wakedata, Effect, answer_of, pass}
use direktiv.Engine.Run.{
  StateLogic, attempt, run_state, resume, failure, handle, catch_error, caught, find_catch,
  pattern_of, ignore, error_value,
}
use direktiv.Engine.Run.Cases.{
  Running, Ended, failed_record, fail_instance-Ended, cancel_saved-effects, pass-returned,
}
use direktiv.Engine.Run.Onward.{ignore-store_data, GoesOn, transition_state-GoesOn}

abbrev pub Catches : Services → String → ErrorDefinition → Type 0
Catches services code c = services.match_string (pattern_of c.error) code ≡ true

abbrev pub Misses : Services → String → ErrorDefinition → Type 0
Misses services code c = services.match_string (pattern_of c.error) code ≡ false

pub find_catch-none :
    (services : Services) (code : String) (cs : List ErrorDefinition)
    → All (Misses services code) cs
    → find_catch services code cs ≡ none
unfolding find_catch
find_catch-none services code [] h = refl
find_catch-none services code (c ∷ cs) h = rw h.0 (find_catch-none services code cs h.1)

pub find_catch-first :
    (services : Services) (code : String) (before : List ErrorDefinition) (c : ErrorDefinition)
    (after : List ErrorDefinition)
    → All (Misses services code) before
    → Catches services code c
    → find_catch services code (before ++ (c ∷ after)) ≡ some c
unfolding find_catch
find_catch-first services code [] c after h m = rw m
find_catch-first services code (b ∷ before) c after h m =
    rw h.0 (find_catch-first services code before c after h.1 m)

-- The status, code and message with which an error that is not caught ends the instance.
abbrev pub status_of : Failure → String
status_of (internal e) = "crashed"
status_of _ = "failed"

abbrev pub code_of : Failure → String
code_of (catchable code message) = code
code_of (uncatchable code message) = code
code_of _ = ""

abbrev pub message_of : Failure → String
message_of (catchable code message) = message
message_of (uncatchable code message) = message
message_of _ = "an internal error occurred"

-- An uncatchable or internal error, or a catchable one that no error definition matches.
abbrev pub IsFatal : Services → StateLogic → Failure → Type 0
IsFatal services logic (catchable code message) = All (Misses services code) logic.error_catchers
IsFatal services logic (uncatchable code message) = Unit {0}
IsFatal services logic (internal e) = Unit {0}
IsFatal services logic (other e) = ⊥

handle-Ended :
    (services : Services) (logic : StateLogic) (f : Failure) (r : Record) (w : World)
    → Running w r
    → answer_of w.writes ≡ none
    → IsFatal services logic f
    → Ended
        (handle services logic f w)
        (failed_record r (status_of f) (code_of f) (message_of f))
        none
unfolding handle catch_error caught
handle-Ended services logic (uncatchable code message) r w h a t =
    fail_instance-Ended r "failed" code message w h a
handle-Ended services logic (internal e) r w h a t =
    fail_instance-Ended r "crashed" "" "an internal error occurred" w h a
handle-Ended services logic (other e) r w h a t = absurd t
handle-Ended services logic (catchable code message) r w h a t =
    let value = error_value code message in
    let (p, q, s) = ignore-store_data "error" value r w h in
    rw
      (
        pass-returned (λ _. caught code message (find_catch services code logic.error_catchers))
            (ignore (store_data "error" value) w) tt p,
        find_catch-none services code logic.error_catchers t,
      )
      (fail_instance-Ended r "failed" code message (ignore (store_data "error" value) w).1 q
        (rw s a))

catch-GoesOn :
    (services : Services) (logic : StateLogic) (code message : String) (c : ErrorDefinition)
    (r : Record) (w : World)
    → Running w r
    → find_catch services code logic.error_catchers ≡ some c
    → c.transition ≢ ""
    → GoesOn (handle services logic (catchable code message) w) c.transition r
unfolding handle catch_error caught
catch-GoesOn services logic code message c r w h found ne =
    let value = error_value code message in
    let (p, q, s) = ignore-store_data "error" value r w h in
    rw
      (
        pass-returned (λ _. caught code message (find_catch services code logic.error_catchers))
            (ignore (store_data "error" value) w) tt p,
        found,
      )
      (transition_state-GoesOn (record { next_state = c.transition; transform = text "" }) code r
        (ignore (store_data "error" value) w).1 q ne)

pub keeps-Running :
    (w : World) (r : Record) (es : List Effect)
    → Running w r
    → Running (record w { effects = es }) r
keeps-Running w r es h = record { stored = h.stored; locked = h.locked; registered = h.registered }

failure-after :
    (services : Services) (logic : StateLogic) (f : Failure) (r : Record) (w : World)
    → Running w r
    → (es : List Effect) × (failure services logic f w
        ≡ handle services logic f (record w { effects = es }))
unfolding failure
failure-after services logic f r w h =
    let (es, p) = cancel_saved-effects logic r w h.stored in
    (es, ap (pass (λ _. handle services logic f)) p)

run_state-failed :
    (services : Services) (logic : StateLogic) (savedata : Savedata) (wakedata : Wakedata)
    (e : Option Failure) (f : Failure) (w w' : World)
    → attempt services logic savedata wakedata e w ≡ (failed f, w')
    → run_state services logic savedata wakedata e w ≡ failure services logic f w'
unfolding run_state
run_state-failed services logic savedata wakedata e f w w' h = ap (resume services logic) h

-- An error of a state that is uncatchable, or internal, or catchable and matched by no error
-- definition of the state ends the instance, if the database answers: the status is "failed"
-- ("crashed" for an internal error), the first error of the instance is the one that its record
-- keeps, the lock and the resources are given up, and the caller is told of the error.
pub run_state-Ended :
    (services : Services) (logic : StateLogic) (savedata : Savedata) (wakedata : Wakedata)
    (e : Option Failure) (f : Failure) (r : Record) (w w' : World)
    → attempt services logic savedata wakedata e w ≡ (failed f, w')
    → Running w' r
    → answer_of w'.writes ≡ none
    → IsFatal services logic f
    → Ended
        (run_state services logic savedata wakedata e w)
        (failed_record r (status_of f) (code_of f) (message_of f))
        none
run_state-Ended services logic savedata wakedata e f r w w' h run a fatal =
    let (es, p) = failure-after services logic f r w' run in
    rw (run_state-failed services logic savedata wakedata e f w w' h, p)
      (handle-Ended services logic f r (record w' { effects = es }) (keeps-Running w' r es run) a
        fatal)

-- A catchable error goes to the target of the first error definition that matches its code: the
-- instance keeps its lock and its record, and its transition to that state is started.
pub run_state-Catches :
    (services : Services) (logic : StateLogic) (savedata : Savedata) (wakedata : Wakedata)
    (e : Option Failure) (code message : String) (before : List ErrorDefinition)
    (c : ErrorDefinition) (after : List ErrorDefinition) (r : Record) (w w' : World)
    → attempt services logic savedata wakedata e w ≡ (failed (catchable code message), w')
    → Running w' r
    → logic.error_catchers ≡ before ++ (c ∷ after)
    → All (Misses services code) before
    → Catches services code c
    → c.transition ≢ ""
    → GoesOn (run_state services logic savedata wakedata e w) c.transition r
run_state-Catches services logic savedata wakedata e code message before c after r w w' h run split
      miss hit target =
    let (es, p) = failure-after services logic (catchable code message) r w' run in
    rw (run_state-failed services logic savedata wakedata e (catchable code message) w w' h, p)
      (catch-GoesOn services logic code message c r (record w' { effects = es })
        (keeps-Running w' r es run)
        (rw split (find_catch-first services code before c after miss hit)) target)
