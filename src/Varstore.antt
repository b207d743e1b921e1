-- ===== src/Varstore.antt =====
-- pkg/varstore/postgres.go: the table of variables. A call is the change that its statement makes of
-- the rows; connections, transactions and the errors of the database are left out. `B` is the type
-- of contents, and `none` the empty one.
pub mod Like
pub mod Refines
pub mod Deletes
mod Tests
use Prim.Native.String.{◌++◌ as join}
use direktiv.Base.{
  ℕ, zero, suc, ◌==◌, String, str_eq, Bool, true, false, not, ◌&&◌, List, [], ◌∷◌, ◌++◌, Option,
  none, some, if◌then◌else◌, Dict,
}
use direktiv.Jqer.Strings.{Text, chars, sort}
use direktiv.Varstore.Like.{like}

-- `scopeString`.
unfoldable pub scope_string : List String → String
scope_string [] = ""
scope_string (s ∷ []) = s
scope_string (s ∷ t ∷ rest) = join s (join "." (scope_string (t ∷ rest)))

pub record Row (B : Type 0) : Type 0 where
  pub scope : String
  pub size : ℕ
  pub key : String
  pub val : Option B

module _ {B : Type 0} where
  -- `WHERE scope = $1 AND key = $2`.
  abbrev pub is_at : String → String → Row B → Bool
  is_at scope key row = str_eq row.scope scope && str_eq row.key key

  unfoldable pub count : String → String → List (Row B) → ℕ
  count scope key [] = 0
  count scope key (row ∷ rows) =
      let n = count scope key rows in if is_at scope key row then suc n else n

  -- The first row of the answer.
  unfoldable pub query_row : String → String → List (Row B) → Option (Row B)
  query_row scope key [] = none
  query_row scope key (row ∷ rows) =
      if is_at scope key row then some row else query_row scope key rows

  -- What the reader gives: no row is the empty variable.
  abbrev pub content : Option (Row B) → ℕ × Option B
  content none = (0, none)
  content (some row) = (row.size, row.val)

  -- `Retrieve`, and the read of all of its reader.
  unfoldable pub retrieve : String → List String → List (Row B) → ℕ × Option B
  unfolding query_row
  retrieve key scope rows = content (query_row (scope_string scope) key rows)

  unfoldable pub update : String → String → ℕ → Option B → List (Row B) → List (Row B)
  update scope key size val [] = []
  update scope key size val (row ∷ rows) =
      (if is_at scope key row then record row { size = size; val = val } else row)
      ∷ update scope key size val rows

  -- `Close` of the writer that `Store` returns.
  unfoldable pub store : String → List String → ℕ → Option B → List (Row B) → List (Row B)
  unfolding count update
  store key scope size val rows =
      let s = scope_string scope in
      if count s key rows == 0
      then rows ++ (record { scope = s; size = size; key = key; val = val } ∷ [])
      else update s key size val rows

  unfoldable pub delete_where : (Row B → Bool) → List (Row B) → List (Row B)
  delete_where test [] = []
  delete_where test (row ∷ rows) =
      let rest = delete_where test rows in if test row then rest else row ∷ rest

  unfoldable pub delete : String → List String → List (Row B) → List (Row B)
  unfolding delete_where
  delete key scope = delete_where (is_at (scope_string scope) key)

  -- `scope LIKE $1`.
  abbrev pub in_scope : List String → Row B → Bool
  in_scope scope row = like (chars (scope_string scope) ++ chars "%") (chars row.scope)

  unfoldable pub delete_all_in_scope : List String → List (Row B) → List (Row B)
  unfolding delete_where
  delete_all_in_scope scope = delete_where (in_scope scope)

  abbrev in_order : List (Row B) → Dict ℕ
  in_order [] = []
  in_order (row ∷ rows) = (row.key, row.size) ∷ in_order rows

  unfoldable pub select : String → List (Row B) → List (Row B)
  select scope [] = []
  select scope (row ∷ rows) =
      let rest = select scope rows in if str_eq row.scope scope then row ∷ rest else rest

  -- `List`: keys and sizes, in the order of the keys.
  unfoldable pub list : List String → List (Row B) → Dict ℕ
  unfolding select
  list scope rows = sort (in_order (select (scope_string scope) rows))
