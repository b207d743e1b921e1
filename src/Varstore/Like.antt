-- ===== src/Varstore/Like.antt =====
-- SQL's `LIKE`, as PostgreSQL documents it: `%` is any text, `_` any character, and `\` makes the
-- next character stand for itself.
use Prim.Native.Char.{Char}
use direktiv.Base.{Bool, true, false, ◌&&◌, ◌||◌, List, [], ◌∷◌, if◌then◌else◌}
use direktiv.Jqer.Strings.{Text, same}

pub data Token : Type 0 where
  any : Token
  one : Token
  exact : Char → Token

abbrev pub token_of : Char → Token
token_of c = if same "%" c then any else (if same "_" c then one else exact c)

unfoldable pub tokens : Bool → Text → List Token
tokens escaped [] = []
tokens true (c ∷ s) = exact c ∷ tokens false s
tokens false (c ∷ s) = elim (same "\\" c) [
  | true ↦ tokens true s
  | false ↦ token_of c ∷ tokens false s
]

unfoldable pub matches : List Token → Text → Bool
matches [] [] = true
matches [] (c ∷ s) = false
matches (any ∷ ts) [] = matches ts []
matches (any ∷ ts) (c ∷ s) = matches ts (c ∷ s) || matches (any ∷ ts) s
matches (one ∷ ts) [] = false
matches (one ∷ ts) (c ∷ s) = matches ts s
matches (exact d ∷ ts) [] = false
matches (exact d ∷ ts) (c ∷ s) = same d c && matches ts s

unfoldable pub like : Text → Text → Bool
unfolding tokens matches
like pattern s = matches (tokens false pattern) s
