-- ===== src/Engine/Transfer/RoundTrip.antt =====
-- A variable that a container writes is what containers read.
use direktiv.Base.{
  ℕ, suc, ◌+◌, ◌<◌, length, String, true, List, [], ◌∷◌, ◌++◌, Option, none, some, ◌≡◌, ap, sym,
  ◌∙◌, subst, ◌⊎◌, inr, arith, All, if◌then◌else◌,
}
use direktiv.Model.Value.{pos}
use direktiv.Varstore.{Row, retrieve, store}
use direktiv.Varstore.Refines.{retrieve-store_self}
use direktiv.Engine.Errors.{Failure}
use direktiv.Engine.Transfer.{
  Chunk, Ending, grpc_chunk_size, Holder, Place, Message, scope_of, placed, get_variable, get_at,
  stream, send_chunks, receive, set_variable, set_at, saved, deleted, is_zero,
}
use direktiv.Engine.Transfer.Chunks.{concat, IsSplit, send_chunks-IsSplit, receive-concat}

-- What the message and those that follow it leave in the table.
abbrev pub written :
    {A : Type 0}
    → Holder
    → Place
    → Message A
    → List (List A)
    → List (Row (List A))
    → List (Row (List A))
written holder place m values rows =
    let xs = m.value ++ concat values in
    store m.key (scope_of holder place m.instance_id) (length xs) (some xs) rows

set_variable-writes :
    {A : Type 0} (find : String → Failure ⊎ Place) (holder : Holder) (place : Place) (m : Message A)
    (values : List (List A)) (n : ℕ) (rows : List (Row (List A)))
    → placed find m.instance_id m.key ≡ inr place
    → m.total_size ≡ pos (suc n)
    → length (m.value ++ concat values) ≡ suc n
    → All (λ (v : List A). 0 < length v) values
    → set_variable find holder m values none rows ≡ (none, written holder place m values rows)
unfolding set_variable
set_variable-writes find holder place m values n rows here total sum full =
    let scope = scope_of holder place m.instance_id in
    ap (set_at holder m values none rows) here
    ∙ ap
        (λ t.
          if is_zero t
          then deleted m.key scope none rows
          else saved m.key scope (receive t 0 [] (m.value ∷ values)) none rows)
        total
    ∙ ap (λ o. saved m.key scope o none rows)
        (receive-concat (suc n) 0 [] m.value values full (omega (arith, sum)))

-- A container sets a variable by a request that is accepted, in any number of messages: the size in
-- the first is that of all the bytes, which is not 0, and each message that follows has some bytes.
-- If the database answers, the bytes are stored. A container that then asks for the variable, in a
-- scope that is the same list of names, gets these bytes in chunks of at most two megabytes, each of
-- which names the size, and the stream of chunks ends.
pub set-get_variable :
    {A : Type 0} (find : String → Failure ⊎ Place) (holder other_holder : Holder)
    (place other_place : Place) (m : Message A) (values : List (List A)) (id : String) (n : ℕ)
    (rows : List (Row (List A)))
    → placed find m.instance_id m.key ≡ inr place
    → m.total_size ≡ pos (suc n)
    → length (m.value ++ concat values) ≡ suc n
    → All (λ (v : List A). 0 < length v) values
    → placed find id m.key ≡ inr other_place
    → scope_of other_holder other_place id ≡ scope_of holder place m.instance_id
    → (set_variable find holder m values none rows ≡ (none, written holder place m values rows))
      × IsSplit grpc_chunk_size (suc n) (m.value ++ concat values) (
          get_variable find other_holder id m.key []
            (set_variable find holder m values none rows).1)
unfolding get_variable
set-get_variable {A} find holder other_holder place other_place m values id n rows here total sum
      full there same =
    let xs = m.value ++ concat values in
    let set = set_variable-writes find holder place m values n rows here total sum full in
    let Good = λ (r : List (Chunk A) × Ending). IsSplit grpc_chunk_size (suc n) xs r in
    let rows' = written holder place m values rows in
    let got =
      ap (get_at other_holder id m.key [] rows') there
      ∙ ap (λ scope. stream [] (retrieve m.key scope rows')) same
      ∙ ap (stream []) (
          retrieve-store_self m.key (scope_of holder place m.instance_id) (length xs) (some xs)
            rows)
      ∙ ap (λ total. send_chunks (2 + length xs) grpc_chunk_size true total [] xs) sum in
    (
      set,
      subst
          (λ (r : Option Failure × List (Row (List A))).
            Good (get_variable find other_holder id m.key [] r.1))
          (sym set)
          (subst Good (sym got)
            (send_chunks-IsSplit (2 + length xs) 2097151 true (suc n) xs (omega arith))),
    )
