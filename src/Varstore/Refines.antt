-- ===== src/Varstore/Refines.antt =====
-- The table of variables implements a map from scopes and keys to contents.
use direktiv.Jqer.Strings.{chars}
use direktiv.Varstore.Like.{like}
use direktiv.Base.{
  str_eq_self, ◌∙◌, subst, ℕ, ◌==◌, ◌≡◌, refl, ap, String, str_eq, Bool, true, false, ◌&&◌, List,
  [], ◌∷◌, ◌++◌, Option, none, arith, inl, inr, if◌then◌else◌, Bool-cases, eq_iff,
}
use direktiv.Varstore.{
  content, Row, is_at, count, query_row, retrieve, update, store, delete_where, delete,
  delete_all_in_scope, in_scope, scope_string,
}

module _ {B : Type 0} where
  -- Size and content of a variable.
  abbrev pub variable_at : String → String → List (Row B) → ℕ × Option B
  variable_at s k rows = content (query_row s k rows)

  count-zero :
      (s k : String) (rows : List (Row B))
      → (count s k rows == 0) ≡ true
      → query_row s k rows ≡ none
  unfolding query_row count
  count-zero s k [] h = refl
  count-zero s k (r ∷ rows) h = elim (Bool-cases (is_at s k r)) [
    | inl e ↦ absurd (ground arith)
    | inr e ↦ rw e (count-zero s k rows (rw (e, count) at h))
  ]

  variable-append :
      (s k : String) (row : Row B) (rows : List (Row B))
      → query_row row.scope row.key rows ≡ none
      → variable_at s k (rows ++ (row ∷ []))
        ≡ (if is_at s k row then (row.size, row.val) else variable_at s k rows)
  unfolding query_row
  variable-append s k row [] h = ground arith
  variable-append s k row (r ∷ rows) h =
      let ih = variable-append s k row rows in
      ground (
        arith,
        ih,
        eq_iff r.scope s,
        eq_iff r.scope row.scope,
        eq_iff row.scope s,
        eq_iff r.key k,
        eq_iff r.key row.key,
        eq_iff row.key k,
      )

  variable-update_self :
      (s k : String) (size : ℕ) (val : Option B) (rows : List (Row B))
      → (count s k rows == 0) ≡ false
      → variable_at s k (update s k size val rows) ≡ (size, val)
  unfolding query_row count update
  variable-update_self s k size val [] h = absurd (ground arith)
  variable-update_self s k size val (r ∷ rows) h = elim (Bool-cases (is_at s k r)) [
    | inl e ↦ rw (e, e) refl
    | inr e ↦ rw (e, e) (variable-update_self s k size val rows (rw (e, count) at h))
  ]

  -- The row is not at the other key.
  other_key :
      (s k s' k' : String) (r : Row B)
      → is_at s k r ≡ true
      → (str_eq s s' && str_eq k k') ≡ false
      → is_at s' k' r ≡ false
  other_key s k s' k' r e d = ground (
    arith,
    eq_iff r.scope s,
    eq_iff r.key k,
    eq_iff s s',
    eq_iff k k',
    eq_iff r.scope s',
    eq_iff r.key k',
  )

  variable-update_ne :
      (s k s' k' : String) (size : ℕ) (val : Option B) (rows : List (Row B))
      → (str_eq s s' && str_eq k k') ≡ false
      → variable_at s' k' (update s k size val rows) ≡ variable_at s' k' rows
  unfolding query_row update
  variable-update_ne s k s' k' size val [] d = refl
  variable-update_ne s k s' k' size val (r ∷ rows) d =
      let ih = variable-update_ne s k s' k' size val rows d in
      elim (Bool-cases (is_at s k r)) [
        | inl e ↦ rw (e, other_key s k s' k' r e d) ih
        | inr e ↦ rw e (elim (Bool-cases (is_at s' k' r)) [ inl f ↦ rw f refl | inr f ↦ rw f ih ])
      ]

  -- The variable at a scope and a key, after a write to a scope and a key.
  variable-store :
      (key : String) (scope : List String) (size : ℕ) (val : Option B) (k s : String)
      (rows : List (Row B))
      → variable_at s k (store key scope size val rows) ≡ (
          if str_eq (scope_string scope) s && str_eq key k
          then (size, val)
          else variable_at s k rows)
  unfolding store
  variable-store key scope size val k s rows =
      let at_scope = scope_string scope in
      elim (Bool-cases (count at_scope key rows == 0)) [
        | inl e ↦ rw e (
            variable-append s k (record { scope = at_scope; size = size; key = key; val = val })
              rows (count-zero at_scope key rows e))
        | inr e ↦ rw e (elim (Bool-cases (str_eq at_scope s && str_eq key k)) [
          | inr d ↦ rw d (variable-update_ne at_scope key s k size val rows d)
          | inl d ↦
              let p : at_scope ≡ s = ground (arith, eq_iff at_scope s) in
              let q : key ≡ k = ground (arith, eq_iff key k) in
              let after = update at_scope key size val rows in
              rw d (
                subst (λ x. variable_at x k after ≡ (size, val)) p
                  (subst (λ y. variable_at at_scope y after ≡ (size, val)) q
                    (variable-update_self at_scope key size val rows e)))
        ])
      ]

  variable-delete_where :
      (test : Row B → Bool) (s k : String) (rows : List (Row B)) (b : Bool)
      → ((r : Row B) → is_at s k r ≡ true → test r ≡ b)
      → variable_at s k (delete_where test rows) ≡ (if b then (0, none) else variable_at s k rows)
  unfolding query_row delete_where
  variable-delete_where test s k [] b h = ground arith
  variable-delete_where test s k (r ∷ rows) true h =
      let ih = variable-delete_where test s k rows true h in
      elim (Bool-cases (is_at s k r)) [
        | inl e ↦ rw (h r e) ih
        | inr e ↦ elim (Bool-cases (test r)) [ inl t ↦ rw t ih | inr t ↦ rw (t, e) ih ]
      ]
  variable-delete_where test s k (r ∷ rows) false h =
      let ih = variable-delete_where test s k rows false h in
      elim (Bool-cases (is_at s k r)) [
        | inl e ↦ rw (h r e, e) refl
        | inr e ↦ elim (Bool-cases (test r)) [ inl t ↦ rw (t, e) ih | inr t ↦ rw (t, e) ih ]
      ]

  variable-delete :
      (key : String) (scope : List String) (k s : String) (rows : List (Row B))
      → variable_at s k (delete key scope rows) ≡ (
          if str_eq (scope_string scope) s && str_eq key k then (0, none) else variable_at s k rows)
  unfolding delete
  variable-delete key scope k s rows =
      variable-delete_where (is_at (scope_string scope) key) s k rows
        (str_eq (scope_string scope) s && str_eq key k)
        (λ r e. ground (
          arith,
          eq_iff r.scope s,
          eq_iff r.key k,
          eq_iff (scope_string scope) s,
          eq_iff key k,
          eq_iff r.scope (scope_string scope),
          eq_iff r.key key,
        ))

  pub variable-delete_all :
      (scope : List String) (k s : String) (rows : List (Row B))
      → variable_at s k (delete_all_in_scope scope rows) ≡ (
          if like (chars (scope_string scope) ++ chars "%") (chars s)
          then (0, none)
          else variable_at s k rows)
  unfolding delete_all_in_scope
  variable-delete_all scope k s rows =
      let pattern = chars (scope_string scope) ++ chars "%" in
      variable-delete_where (in_scope scope) s k rows (like pattern (chars s)) (λ r e.
        let p : r.scope ≡ s = ground (arith, eq_iff r.scope s) in
        ap (λ x. like pattern (chars x)) p)

-- The table implements a map from scopes and keys to sizes and contents, in which a variable that is
-- not there is empty. `Retrieve` reads the map; `Store` changes it at the one scope and key that it
-- writes, also where the variable is there already; `Delete` empties it at one scope and key;
-- `DeleteAllInScope` empties it at every key of the scopes whose text SQL's LIKE matches.
pub varstore-Refines :
    {B : Type 0} (key : String) (scope : List String) (size : ℕ) (val : Option B) (k : String)
    (at_scope : List String) (rows : List (Row B))
    → (retrieve k at_scope (store key scope size val rows) ≡ (
        if str_eq (scope_string scope) (scope_string at_scope) && str_eq key k
        then (size, val)
        else retrieve k at_scope rows))
      × (retrieve k at_scope (delete key scope rows) ≡ (
          if str_eq (scope_string scope) (scope_string at_scope) && str_eq key k
          then (0, none)
          else retrieve k at_scope rows))
      × (retrieve k at_scope (delete_all_in_scope scope rows) ≡ (
          if like (chars (scope_string scope) ++ chars "%") (chars (scope_string at_scope))
          then (0, none)
          else retrieve k at_scope rows))
unfolding retrieve
varstore-Refines key scope size val k at_scope rows = (
  variable-store key scope size val k (scope_string at_scope) rows,
  variable-delete key scope k (scope_string at_scope) rows,
  variable-delete_all scope k (scope_string at_scope) rows,
)

-- A variable that was just stored is read.
pub retrieve-store_self :
    {B : Type 0} (key : String) (scope : List String) (size : ℕ) (x : Option B)
    (rows : List (Row B))
    → retrieve key scope (store key scope size x rows) ≡ (size, x)
retrieve-store_self key scope size x rows =
    (varstore-Refines key scope size x key scope rows).0
    ∙ rw (str_eq_self (scope_string scope), str_eq_self key) refl
