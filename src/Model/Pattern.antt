-- ===== src/Model/Pattern.antt =====
-- The regular expressions of pkg/model (common-structures.go, workflow.go), and a matcher for their
-- form: a sequence of character classes, each taken once, any number of times, or up to n times,
-- anchored at both ends.
use Prim.Native.Char.{code}
use direktiv.Base.{
  ℕ, zero, suc, String, Bool, true, false, not, ◌&&◌, ◌||◌, List, [], ◌∷◌, leb, ◌==◌,
}

abbrev pub codes : String → List ℕ
codes String.[] = []
codes (String.◌∷◌ c s) = code c ∷ codes s

abbrev pub Class : Type 0
Class = ℕ → Bool

pub data Item : Type 0 where
  one : Class → Item
  star : Class → Item
  upto : ℕ → Class → Item

unfoldable pub matches : List Item → List ℕ → Bool
matches [] [] = true
matches [] (c ∷ s) = false
matches (one p ∷ r) [] = false
matches (one p ∷ r) (c ∷ s) = p c && matches r s
matches (star p ∷ r) [] = matches r []
matches (star p ∷ r) (c ∷ s) = matches r (c ∷ s) || p c && matches (star p ∷ r) s
matches (upto zero p ∷ r) s = matches r s
matches (upto (suc n) p ∷ r) [] = matches r []
matches (upto (suc n) p ∷ r) (c ∷ s) = matches r (c ∷ s) || p c && matches (upto n p ∷ r) s

abbrev pub is_lower : Class
is_lower c = leb b'a' c && leb c b'z'

abbrev pub is_digit : Class
is_digit c = leb b'0' c && leb c b'9'

-- `[a-z0-9]`
abbrev pub is_alphanumeric : Class
is_alphanumeric c = is_lower c || is_digit c

-- `[a-z0-9._-]`
abbrev pub is_id_part : Class
is_id_part c = is_alphanumeric c || (c == b'.' || (c == b'_' || c == b'-'))

-- `\w`
abbrev pub is_word : Class
is_word c = is_alphanumeric c || ((leb b'A' c && leb c b'Z') || c == b'_')

-- `\s`
abbrev pub is_space : Class
is_space c = c == 32 || (c == 9 || (c == 10 || (c == 12 || c == 13)))

-- `[^_-]`
abbrev pub is_name_start : Class
is_name_start c = not (c == b'_' || c == b'-')

-- `[^_\-\s]`
abbrev pub is_name_end : Class
is_name_end c = not (c == b'_' || (c == b'-' || is_space c))

-- `^[a-z][a-z0-9._-]{1,34}[a-z0-9]$`
unfoldable pub workflow_id_regex : List Item
workflow_id_regex = one is_lower ∷ one is_id_part ∷ upto 33 is_id_part ∷ one is_alphanumeric ∷ []

-- `^[^_-][\w\-]*[^_\-\s]$`
unfoldable pub function_name_regex : List Item
function_name_regex = one is_name_start ∷ star (λ c. is_word c || c == b'-') ∷ one is_name_end ∷ []

-- `^\w+$`
unfoldable pub variable_name_regex : List Item
variable_name_regex = one is_word ∷ star is_word ∷ []

-- `regexp.MatchString(regex, s)`; these three expressions compile, so its error is nil.
unfoldable pub match_string : List Item → String → Bool
unfolding matches
match_string regex s = matches regex (codes s)
