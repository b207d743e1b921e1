-- ===== src/Engine/Instance.antt =====
-- The methods of `workflowLogicInstance` (pkg/direktiv/wli.go), and the engine's calls that they and
-- the states share (engine.go). Log lines and the choice of loggers are left out.
pub mod Lock
use Prim.Native.String.{◌++◌ as join}
use direktiv.Base.{
  ℕ, suc, String, str_eq, is_empty, Bool, true, false, not, ◌&&◌, List, [], ◌∷◌, Option, none, some,
  new, if◌then◌else◌, Dict, lookup, insert, delete,
}
use direktiv.Model.Value.{Value, null, text, object, Fields, end, field}
use direktiv.Varstore.{delete_all_in_scope}
use direktiv.Engine.Errors.{Failure, catchable, internal, new_internal_error, wrap_catchable_error}
use direktiv.Engine.Services.{Services}
use direktiv.Engine.Jq.{jq_object}
use direktiv.Engine.World.{
  World, Outcome, M, Record, Instance, Savedata, nothing, Memory, memory, corrupt, Metric, Next,
  next_transition, next_end, next_retry, Effect, measured, freed, published, reported, InvokedBy,
  nobody, caller, garbled, SubflowCaller, ActionResultPayload, Output, json, returned, failed,
  panicked, ◌>>=◌, ◌>>◌, done, fail, crash, emit, this, the_record, put_instance, put_record, write,
}

-- `InstanceMemory`.
abbrev pub decoded : Memory → M Savedata
decoded (memory s) = done s
decoded corrupt = fail (Failure.other (new "cannot decode the savedata"))

unfoldable pub instance_memory : Record → M Savedata
instance_memory rec = decoded rec.memory

abbrev pub last_or : String → List String → String
last_or d [] = d
last_or d (x ∷ xs) = last_or x xs

abbrev pub next_of : String → Bool → Next
next_of next_state retrying =
    if is_empty next_state then next_end else (if retrying then next_retry else next_transition)

-- `completeState`: a metric for the state that ends, while the instance is pending.
unfoldable pub complete_state : Record → String → String → Bool → M (Unit {0})
complete_state rec next_state err_code retrying = elim rec.flow [
  | [] ↦ done tt
  | first ∷ rest ↦
      if str_eq rec.status "pending"
      then emit (
          measured (record {
            state = last_or first rest;
            transition = next_state;
            error_code = err_code;
            next = next_of next_state retrying;
          }))
      else done tt
]

-- `freeResources`: the timers and event listeners of the instance are deleted, and its variables.
-- The errors of the deletions are dropped, and left out.
unfoldable pub free_resources : Record → M (Unit {0})
free_resources rec w = done tt (record w {
  effects = freed rec.instance_id ∷ w.effects;
  variables =
      delete_all_in_scope (w.instance.namespace ∷ rec.workflow_id ∷ rec.instance_id ∷ [])
        w.variables;
})

-- `unlock`: the engine's cancel function of the instance is taken out of the map and called. If it
-- is not there, the call of a nil function panics.
unfoldable pub unlock : M (Unit {0})
unlock w =
    let i = w.instance in
    let after = record w {
      cancels = delete i.id w.cancels;
      instance = record i { locked = false };
    } in
    if i.locked
    then elim (lookup i.id w.cancels) [
      | none ↦ crash (record w { cancels = delete i.id w.cancels })
      | some cancel ↦ done tt after
    ]
    else done tt w

-- `Close`; the loggers' own `Close` is left out.
unfoldable pub close : M (Unit {0})
unfolding unlock
close = unlock

-- `lock`: the database lock, and an entry in the map of cancel functions.
unfoldable pub lock : M (Unit {0})
lock = do
  answer ← write
  i ← this
  elim answer [
    | some e ↦ fail (new_internal_error e)
    | none ↦ λ w.
        done tt
          (record w { cancels = insert i.id tt w.cancels; instance = record i { locked = true } })
  ]

-- `localCancel`, less the timer: the cancel function is taken out of the map and called.
unfoldable pub local_cancel : String → M (Unit {0})
local_cancel id w = done tt (record w { cancels = delete id w.cancels })

-- `wakeCaller`: who waits at the API hears of the instance, and so does the instance that called it.
unfoldable pub wake_caller : Option Value → M (Unit {0})
wake_caller output = do
  i ← this
  rec ← the_record
  emit (published i.id)
  elim rec.invoked_by [
    | nobody ↦ done tt
    | garbled ↦ done tt
    | caller c ↦ emit (
        reported c (record {
          action_id = i.id;
          error_code = rec.error_code;
          error_message = rec.error_message;
          output = elim output [ none ↦ json null | some v ↦ json v ];
        }))
  ]

-- The state status, code and message that an update writes.
abbrev pub with_error : Record → String → String → String → Record
with_error rec status code message = record rec {
  status = status;
  error_code = code;
  error_message = message;
}

-- An update of the record whose result is assigned to `wli.rec` and dereferenced at once: where the
-- write fails the pointer is nil, and the dereference panics.
unfoldable pub update_or_panic : Record → M (Unit {0})
update_or_panic rec = do
  answer ← write
  elim answer [ none ↦ put_record (some rec) | some e ↦ (do put_record none; crash) ]

abbrev pub err_code_internal : String
err_code_internal = "direktiv.internal.error"

-- `setStatus`. The first error of an instance is the one that is kept. It panics where its write
-- fails, so the error that it returns is nil whenever it returns.
unfoldable pub set_status : String → String → String → M (Unit {0})
unfolding complete_state update_or_panic
set_status status code message = do
  rec ← the_record
  let kept = if str_eq status "crashed" then err_code_internal else code
  complete_state rec "" kept false
  if is_empty rec.error_code
      then update_or_panic (record (with_error rec status kept message) { ended = true })
      else update_or_panic (record rec { ended = true })

abbrev pub err_code_multiple_errors : String
err_code_multiple_errors = "direktiv.workflow.multipleErrors"

-- `Raise`: an instance raises one error at most.
unfoldable pub raise : String → String → M (Unit {0})
unfolding update_or_panic
raise code message = do
  rec ← the_record
  if is_empty rec.error_code
      then update_or_panic (with_error rec "failed" code message)
      else fail (
          catchable err_code_multiple_errors "the workflow instance tried to throw multiple errors")

-- `Save`: on a failed write the pointer to the record stays nil.
unfoldable pub save : Savedata → M (Unit {0})
save saved = do
  rec ← the_record
  answer ← write
  elim answer [
    | none ↦ put_record (some (record rec { memory = memory saved }))
    | some e ↦ (do put_record none; fail (new_internal_error e))
  ]

-- `m[key] = val` at a JSON object.
unfoldable pub set_field : String → Value → Fields → Fields
set_field key val end = field key val end
set_field key val (field k v m) =
    if str_eq k key then field key val m else field k v (set_field key val m)

unfoldable pub store_data : String → Value → M (Unit {0})
unfolding set_field
store_data key val = do
  i ← this
  elim i.state_data [
    | object m ↦ put_instance (record i { state_data = object (set_field key val m) })
    | _ ↦ fail (internal (new "unable to store data because state data isn't a valid JSON object"))
  ]

abbrev rewrap : {A : Type 0} → Outcome A → Outcome A
rewrap (failed e) = failed (wrap_catchable_error (join "unable to apply transform: ") e)
rewrap r = r

abbrev pub rewrapped : {A : Type 0} → M A → M A
rewrapped m w = let (r, w') = m w in (rewrap r, w')

-- `Transform`.
unfoldable pub transform : Services → Value → M (Unit {0})
unfolding jq_object
transform services command = do
  i ← this
  m ← rewrapped (jq_object services i.state_data command)
  put_instance (record i { state_data = object m })
