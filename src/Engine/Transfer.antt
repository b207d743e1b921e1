-- ===== src/Engine/Transfer.antt =====
-- The variables that a container reads and writes through pkg/direktiv/flow.go: the six handlers
-- `GetNamespaceVariable` to `SetInstanceVariable`, which are two for each of three scopes.
-- Contents are lists of bytes, of the type `A`; the table is that of Varstore.
pub mod Chunks
pub mod RoundTrip
mod Tests
use direktiv.Base.{
  take, drop, ℕ, zero, suc, ◌+◌, ◌*◌, leb, length, String, is_empty, Bool, true, false, not, ◌&&◌,
  List, [], ◌∷◌, ◌++◌, Option, none, some, ◌⊎◌, inl, inr, new, if◌then◌else◌,
}
use direktiv.Model.Value.{ℤ, pos, negsuc}
use direktiv.Varstore.{Row, retrieve, store, delete}
use direktiv.Engine.Errors.{Failure, other}

abbrev pub grpc_chunk_size : ℕ
grpc_chunk_size = 2 * 1024 * 1024

-- The three pairs of handlers.
pub data Holder : Type 0 where
  of_namespace of_workflow of_instance : Holder

-- The namespace and the workflow of an instance, as `getWorkflowInstance` finds them.
pub record Place : Type 0 where
  pub namespace : String
  pub workflow : String

abbrev pub scope_of : Holder → Place → String → List String
scope_of of_namespace p id = p.namespace ∷ []
scope_of of_workflow p id = p.namespace ∷ p.workflow ∷ []
scope_of of_instance p id = p.namespace ∷ p.workflow ∷ id ∷ []

-- The place of the instance, or the error of the request.
unfoldable pub placed : (String → Failure ⊎ Place) → String → String → Failure ⊎ Place
placed find id key =
    if is_empty id
    then inl (other (new "required instanceId"))
    else (if is_empty key then inl (other (new "requires variable key")) else find id)

module _ {A : Type 0} where
  abbrev pub is_nil : List A → Bool
  is_nil [] = true
  is_nil (x ∷ xs) = false

-- How the stream of chunks ends.
pub data Ending : Type 0 where
  finished : Ending
  stopped : Failure → Ending
  out_of_fuel : Ending

-- A response. Its chunk size is always `grpc_chunk_size`.
pub record Chunk (A : Type 0) : Type 0 where
  pub value : List A
  pub total_size : ℕ

abbrev pub answer_of : List (Option Failure) → Option Failure
answer_of [] = none
answer_of (a ∷ rest) = a

abbrev pub answers_after : List (Option Failure) → List (Option Failure)
answers_after [] = []
answers_after (a ∷ rest) = rest

-- A message; what follows the first gives its value only.
pub record Message (A : Type 0) : Type 0 where
  pub instance_id : String
  pub key : String
  pub total_size : ℤ
  pub value : List A

abbrev pub reached : ℕ → ℤ → Bool
reached read (pos total) = leb total read
reached read (negsuc n) = true

abbrev pub is_zero : ℤ → Bool
is_zero (pos zero) = true
is_zero (pos (suc n)) = false
is_zero (negsuc n) = false

abbrev pub after_answer :
    {A : Type 0} → Option Failure → List (Chunk A) × Ending → List (Chunk A) × Ending
after_answer (some e) r = ([], stopped e)
after_answer none r = r

module _ {A : Type 0} where
  abbrev pub sent : Option Failure → Chunk A → List (Chunk A) × Ending → List (Chunk A) × Ending
  sent (some e) chunk rest = ([], stopped e)
  sent none chunk (chunks, ending) = (chunk ∷ chunks, ending)

  -- The loop: `first` says that `chunks` is 0, and `answers` are the errors of the next sends.
  unfoldable pub send_chunks :
      ℕ → ℕ → Bool → ℕ → List (Option Failure) → List A → List (Chunk A) × Ending
  send_chunks zero size first total answers xs = ([], out_of_fuel)
  send_chunks (suc fuel) size first total answers xs =
      let chunk = take size xs in
      let rest = send_chunks fuel size false total (answers_after answers) (drop size xs) in
      if not first && is_nil chunk
      then ([], finished)
      else sent (answer_of answers) (record { value = chunk; total_size = total }) rest

  abbrev pub content_of : Option (List A) → List A
  content_of none = []
  content_of (some xs) = xs

  abbrev pub stream : List (Option Failure) → ℕ × Option (List A) → List (Chunk A) × Ending
  stream answers (size, val) =
      send_chunks (2 + length (content_of val)) grpc_chunk_size true size answers (content_of val)

  abbrev pub get_at :
      Holder
      → String
      → String
      → List (Option Failure)
      → List (Row (List A))
      → Failure ⊎ Place
      → List (Chunk A) × Ending
  get_at holder id key answers rows (inl e) = ([], stopped e)
  get_at holder id key answers rows (inr place) =
      after_answer (answer_of answers)
        (stream (answers_after answers) (retrieve key (scope_of holder place id) rows))

  -- `GetNamespaceVariable`, `GetWorkflowVariable` and `GetInstanceVariable`. The first of the
  -- answers is that of `Retrieve`.
  unfoldable pub get_variable :
      (String → Failure ⊎ Place)
      → Holder
      → String
      → String
      → List (Option Failure)
      → List (Row (List A))
      → List (Chunk A) × Ending
  unfolding placed send_chunks retrieve
  get_variable find holder id key answers rows =
      get_at holder id key answers rows (placed find id key)

  -- The loop over the messages, with the bytes written so far; none where no message is left.
  unfoldable pub receive : ℤ → ℕ → List A → List (List A) → Option (List A)
  receive total read buffer [] = none
  receive total read buffer (value ∷ values) =
      let read' = read + length value in
      let rest = receive total read' (buffer ++ value) values in
      if reached read' total then some (buffer ++ value) else rest

  abbrev pub saved :
      String
      → List String
      → Option (List A)
      → Option Failure
      → List (Row (List A))
      → Option Failure × List (Row (List A))
  saved key scope none answer rows = (some (other (new "the stream ended")), rows)
  saved key scope (some xs) (some e) rows = (some e, rows)
  saved key scope (some xs) none rows = (none, store key scope (length xs) (some xs) rows)

  abbrev pub deleted :
      String
      → List String
      → Option Failure
      → List (Row (List A))
      → Option Failure × List (Row (List A))
  deleted key scope (some e) rows = (some e, rows)
  deleted key scope none rows = (none, delete key scope rows)

  abbrev pub set_at :
      Holder
      → Message A
      → List (List A)
      → Option Failure
      → List (Row (List A))
      → Failure ⊎ Place
      → Option Failure × List (Row (List A))
  set_at holder m values answer rows (inl e) = (some e, rows)
  set_at holder m values answer rows (inr place) =
      let scope = scope_of holder place m.instance_id in
      if is_zero m.total_size
      then deleted m.key scope answer rows
      else saved m.key scope (receive m.total_size 0 [] (m.value ∷ values)) answer rows

  -- `SetNamespaceVariable`, `SetWorkflowVariable` and `SetInstanceVariable`, for the first message
  -- and the values of those that follow. The answer is that of the statement on the table.
  unfoldable pub set_variable :
      (String → Failure ⊎ Place)
      → Holder
      → Message A
      → List (List A)
      → Option Failure
      → List (Row (List A))
      → Option Failure × List (Row (List A))
  unfolding placed receive store delete
  set_variable find holder m values answer rows =
      set_at holder m values answer rows (placed find m.instance_id m.key)
