-- ===== src/Engine/Logic/Variables.antt =====
-- What the getter and the setter state share: the scopes of variables, and the table of variables as
-- it is read and written (pkg/varstore). The database can refuse each read and write.
pub mod Getter
pub mod Setter
pub mod SetGet
mod Tests
use direktiv.Base.{
  is_empty, if◌then◌else◌, String, str_eq, is_empty, Bool, ◌||◌, List, [], ◌∷◌, Option, none, some,
  if◌then◌else◌,
}
use direktiv.Model.Value.{
  Value, null, boolean, text, int, float, array, object, Items, nil, cons, Fields, end, field,
}
use direktiv.Varstore.{retrieve, store}
use direktiv.Engine.Errors.{Failure, new_internal_error}
use direktiv.Engine.Services.{Services}
use direktiv.Engine.World.{World, M, Instance, Record, Output, json, raw, done, fail, write, ◌>>=◌}

-- The switch over `v.Scope`. The error of an unknown scope is overwritten by the next call, and the
-- scope stays empty.
unfoldable pub scope_of : Instance → Record → String → List String
scope_of i rec scope =
    if is_empty scope || str_eq scope "instance"
    then i.namespace ∷ rec.workflow_id ∷ i.id ∷ []
    else (if str_eq scope "workflow"
        then i.namespace ∷ rec.workflow_id ∷ []
        else (if str_eq scope "namespace" then i.namespace ∷ [] else []))

abbrev pub or_internal_error : {A : Type 0} → Option Failure → M A → M A
or_internal_error (some e) m = fail (new_internal_error e)
or_internal_error none m = m

-- What `json.Unmarshal` makes of the JSON text of a value: a whole number comes back as a `float64`.
unfoldable mutual
  pub reread : Value → Value
  reread null = null
  reread (boolean b) = boolean b
  reread (text s) = text s
  reread (int n) = float n 0
  reread (float m e) = float m e
  reread (array xs) = array (reread_items xs)
  reread (object m) = object (reread_fields m)

  pub reread_items : Items → Items
  reread_items nil = nil
  reread_items (cons v xs) = cons (reread v) (reread_items xs)

  pub reread_fields : Fields → Fields
  reread_fields end = end
  reread_fields (field k v m) = field k (reread v) (reread_fields m)

-- Bytes that are no JSON text are kept as they are, and appear as base64 text; of no bytes,
-- nothing is made.
unfoldable pub decoded : Option Output → Value
unfolding reread
decoded none = null
decoded (some (json v)) = reread v
decoded (some (raw s)) = if is_empty s then null else text s

unfoldable pub read_variable : String → List String → M Value
unfolding retrieve decoded
read_variable key scope = do
  answer ← write
  or_internal_error answer (λ w. done (decoded (retrieve key scope w.variables).1) w)

-- The JSON text of the value is written.
unfoldable pub write_variable : Services → String → List String → Value → M (Unit {0})
unfolding store
write_variable services key scope x = do
  answer ← write
  or_internal_error answer (λ w.
      done tt (record w {
        variables = store key scope (services.json_size x) (some (json x)) w.variables;
      }))
