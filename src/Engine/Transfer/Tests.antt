-- ===== src/Engine/Transfer/Tests.antt =====
-- The theorem on transfers, at a variable of three bytes.
use direktiv.Base.{◌≡◌, refl, ℕ, String, List, [], ◌∷◌, none, ◌⊎◌, inr, arith}
use direktiv.Model.Value.{pos}
use direktiv.Varstore.{Row}
use direktiv.Engine.Errors.{Failure}
use direktiv.Engine.Transfer.{
  of_workflow, Place, Message, placed, set_variable, get_variable, grpc_chunk_size,
}
use direktiv.Engine.Transfer.Chunks.{IsSplit}
use direktiv.Engine.Transfer.RoundTrip.{written, set-get_variable}

abbrev place : Place
place = record { namespace = "n"; workflow = "w" }

abbrev find : String → Failure ⊎ Place
find id = inr place

abbrev message : Message ℕ
message = record { instance_id = "i"; key = "x"; total_size = pos 3; value = 7 ∷ [] }

abbrev following : List (List ℕ)
following = (8 ∷ 9 ∷ []) ∷ []

abbrev no_rows : List (Row (List ℕ))
no_rows = []

accepted : placed find "i" "x" ≡ inr place
unfolding placed
accepted = refl

set-get_variable_example :
    (set_variable find of_workflow message following none no_rows
      ≡ (none, written of_workflow place message following no_rows))
    × IsSplit grpc_chunk_size 3 (7 ∷ 8 ∷ 9 ∷ []) (
        get_variable find of_workflow "i" "x" []
          (set_variable find of_workflow message following none no_rows).1)
set-get_variable_example =
    set-get_variable find of_workflow of_workflow place place message following "i" 2 no_rows
      accepted refl refl (omega arith, tt) accepted refl
