-- ===== src/Varstore/Deletes.antt =====
-- Which variables the deletion of a scope takes with it.
use Prim.Native.Char.{Char}
use direktiv.Base.{
  ◌≡◌, refl, ap, ◌∙◌, Bool, true, false, not, ◌&&◌, ◌||◌, List, [], ◌∷◌, ◌++◌, none, arith, All,
  if◌then◌else◌, String,
}
use direktiv.Jqer.Strings.{Text, chars, same, has_prefix}
use direktiv.Varstore.Like.{any, exact, tokens, matches, like}
use direktiv.Varstore.{Row, retrieve, delete_all_in_scope, scope_string}
use direktiv.Varstore.Refines.{variable-delete_all}

-- No character of the text has a meaning in a pattern.
abbrev pub is_literal : Char → Bool
is_literal c = not (same "%" c || (same "_" c || same "\\" c))

abbrev pub IsLiteral : Text → Type 0
IsLiteral s = All (λ c. is_literal c ≡ true) s

any-matches : (s : Text) → matches (any ∷ []) s ≡ true
unfolding matches
any-matches [] = refl
any-matches (c ∷ s) = rw (any-matches s) refl

literal-tokens :
    (c : Char) (s : Text) → is_literal c ≡ true → tokens false (c ∷ s) ≡ exact c ∷ tokens false s
unfolding tokens
literal-tokens c s h =
    let a : same "\\" c ≡ false = ground arith in
    let b : same "%" c ≡ false = ground arith in
    let d : same "_" c ≡ false = ground arith in rw (a, b, d, tokens) refl

like-prefix : (p s : Text) → IsLiteral p → like (p ++ chars "%") s ≡ has_prefix p s
unfolding like has_prefix matches
like-prefix [] s h = any-matches s
like-prefix (c ∷ p) [] h = ap (λ ts. matches ts []) (literal-tokens c (p ++ chars "%") h.0)
like-prefix (c ∷ p) (d ∷ s) h =
    ap (λ ts. matches ts (d ∷ s)) (literal-tokens c (p ++ chars "%") h.0)
    ∙ ap (λ b. same c d && b) (like-prefix p s h.1)

-- Where the text of a scope has no character with a meaning to LIKE, the deletion of all variables
-- in it empties exactly the variables of the scopes whose text starts with that text, also those of
-- another name that only starts alike, and keeps all others.
pub delete_all-prefix :
    {B : Type 0} (scope : List String) (k : String) (at_scope : List String) (rows : List (Row B))
    → IsLiteral (chars (scope_string scope))
    → retrieve k at_scope (delete_all_in_scope scope rows) ≡ (
        if has_prefix (chars (scope_string scope)) (chars (scope_string at_scope))
        then (0, none)
        else retrieve k at_scope rows)
unfolding retrieve
delete_all-prefix scope k at_scope rows h =
    variable-delete_all scope k (scope_string at_scope) rows
    ∙ rw (like-prefix (chars (scope_string scope)) (chars (scope_string at_scope)) h) refl
