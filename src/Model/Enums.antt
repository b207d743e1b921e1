-- ===== src/Model/Enums.antt =====
-- pkg/model/enums.go: the string enumerations. A Go `int` type with `iota` constants is a number,
-- and the name of a constant is its place in a table of strings.
pub mod RoundTrip
use direktiv.Base.{
  ℕ, suc, String, str_eq, is_empty, List, [], ◌∷◌, Option, none, some, get_elem?, Result, ok, err,
  about, refuse, ◌>>=◌, ◌>>◌, true, false,
}

-- `for i, str := range table { if str == s { return i } }`, from the place `i` on.
unfoldable pub index_from : ℕ → String → List String → Option ℕ
index_from i s [] = none
index_from i s (str ∷ table) = elim (str_eq str s) [
  | true ↦ some i
  | false ↦ index_from (suc i) s table
]

-- The body that the four parsers share: the empty text and an unknown one are errors.
unfoldable pub parse_name : String → List String → String → Result ℕ
unfolding index_from
parse_name kind table s = do
  refuse (is_empty s) (about "must be one of" kind)
  elim (index_from 0 s table) [ none ↦ err (about "unknown" s) | some i ↦ ok i ]

abbrev pub branch_mode_and : ℕ
branch_mode_and = 0

abbrev pub branch_mode_or : ℕ
branch_mode_or = 1

abbrev pub branch_mode_strings : List String
branch_mode_strings = "and" ∷ "or" ∷ []

unfoldable pub parse_branch_mode : String → Result ℕ
unfolding parse_name
parse_branch_mode s = parse_name "mode" branch_mode_strings s

-- An index outside the table panics in Go, and is `none` here.
unfoldable pub branch_mode_string : ℕ → Option String
branch_mode_string a = get_elem? branch_mode_strings a

abbrev pub size_strings : List String
size_strings = "small" ∷ "medium" ∷ "large" ∷ []

unfoldable pub parse_size : String → Result ℕ
unfolding parse_name
parse_size s = parse_name "size" size_strings s

unfoldable pub size_string : ℕ → Option String
size_string a = get_elem? size_strings a
