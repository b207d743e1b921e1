-- ===== src/Engine/Invoke/Created.antt =====
-- An instance that `newWorkflowLogicInstance` makes is of the stored workflow.
use direktiv.Base.{String, true, false, none, some, ◌≡◌, refl}
use direktiv.Model.Value.{Value, object, Fields}
use direktiv.Engine.Errors.{catchable, uncatchable, internal, other}
use direktiv.Engine.Services.{Services, StoredWorkflow, stored_workflow, no_workflow, query_failed}
use direktiv.Engine.Action.{found_workflow, new_workflow_logic_instance, next_id, hidden}
use direktiv.Engine.World.{
  World, Outcome, returned, failed, panicked, Instance, done, put_instance, ◌>>=◌, ◌>>◌, pass,
}
use direktiv.Engine.Invoke.{new_instance, create}

-- An instance that `create` gives is of the stored workflow.
abbrev pub Created : Services → String → String → Outcome Instance × World → Type 0
Created services namespace name (returned i, w) =
    services.find_workflow namespace name ≡ stored_workflow true (some i.wf)
Created services namespace name (failed e, w) = Unit
Created services namespace name (panicked, w) = Unit

found-Created :
    (services : Services) (namespace name : String) (input : Value) (w : World) (s : StoredWorkflow)
    → services.find_workflow namespace name ≡ s
    → Created services namespace name (
        pass
          (λ wf. next_id services >>= λ suffix.
            put_instance (new_instance namespace name suffix input wf)
            >> done (new_instance namespace name suffix input wf))
          (found_workflow s w))
unfolding next_id
found-Created services namespace name input w no_workflow h = tt
found-Created services namespace name input w (query_failed e) h = tt
found-Created services namespace name input w (stored_workflow false wf) h = tt
found-Created services namespace name input w (stored_workflow true none) h = tt
found-Created services namespace name input w (stored_workflow true (some wf)) h = h

pub create-Created :
    (services : Services) (namespace name : String) (input : Value) (w : World)
    → Created services namespace name (create services namespace name input w)
unfolding create new_workflow_logic_instance
create-Created services namespace name input w =
    found-Created services namespace name input w (services.find_workflow namespace name) refl

-- Hiding an internal error keeps this.
pub hiding-Created :
    (services : Services) (namespace name : String) (out : Outcome Instance) (w : World)
    → Created services namespace name (out, w)
    → Created services namespace name (hidden out, w)
hiding-Created services namespace name (returned i) w h = h
hiding-Created services namespace name (failed (catchable c m)) w h = tt
hiding-Created services namespace name (failed (uncatchable c m)) w h = tt
hiding-Created services namespace name (failed (internal e)) w h = tt
hiding-Created services namespace name (failed (other e)) w h = tt
hiding-Created services namespace name panicked w h = tt

pub pass-Created :
    (services : Services) (namespace name : String) (out : Outcome Fields × World)
    → Created services namespace name (pass (λ m. create services namespace name (object m)) out)
pass-Created services namespace name (returned m, w) =
    create-Created services namespace name (object m) w
pass-Created services namespace name (failed e, w) = tt
pass-Created services namespace name (panicked, w) = tt
