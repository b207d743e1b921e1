-- ===== src/Varstore/Tests.antt =====
-- The theorems on variables at a small table.
use direktiv.Base.{◌≡◌, refl, [], ◌∷◌, List, some, none, ℕ}
use direktiv.Jqer.Strings.{has_prefix}
use direktiv.Varstore.{Row, retrieve, store, delete, delete_all_in_scope, scope_string}
use direktiv.Varstore.Like.{like}
use direktiv.Varstore.Refines.{varstore-Refines}
use direktiv.Varstore.Deletes.{delete_all-prefix}

-- The variable "k" of the namespace "ab".
abbrev rows : List (Row ℕ)
rows = record { scope = "ab"; size = 1; key = "k"; val = some 7 } ∷ []

-- The deletion of the namespace "a" empties it.
delete_all-prefix_example :
    retrieve "k" ("ab" ∷ []) (delete_all_in_scope ("a" ∷ []) rows) ≡ (0, none)
unfolding scope_string has_prefix
delete_all-prefix_example = delete_all-prefix ("a" ∷ []) "k" ("ab" ∷ []) rows (refl, tt)

varstore-Refines_example :
    (retrieve "k" ("ab" ∷ []) (store "j" ("ab" ∷ []) 2 (some 8) rows) ≡ (1, some 7))
    × (retrieve "k" ("ab" ∷ []) (delete "j" ("ab" ∷ []) rows) ≡ (1, some 7))
    × (retrieve "k" ("ab" ∷ []) (delete_all_in_scope ("ab" ∷ []) rows) ≡ (0, none))
unfolding scope_string retrieve like
varstore-Refines_example = varstore-Refines "j" ("ab" ∷ []) 2 (some 8) "k" ("ab" ∷ []) rows
