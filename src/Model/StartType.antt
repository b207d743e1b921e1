-- ===== src/Model/StartType.antt =====
-- pkg/model/enums.go: the types of start definitions.
use direktiv.Base.{ℕ, String, List, [], ◌∷◌, Option, Result, get_elem?}
use direktiv.Model.Enums.{parse_name}

abbrev pub default_start : ℕ
default_start = 0

abbrev pub scheduled : ℕ
scheduled = 1

abbrev pub event : ℕ
event = 2

abbrev pub events_xor : ℕ
events_xor = 3

abbrev pub events_and : ℕ
events_and = 4

abbrev pub strings : List String
strings = "default" ∷ "scheduled" ∷ "event" ∷ "eventsXor" ∷ "eventsAnd" ∷ []

unfoldable pub parse : String → Result ℕ
unfolding parse_name
parse s = parse_name "type" strings s

-- An index outside the table panics in Go, and is `none` here.
unfoldable pub name : ℕ → Option String
name a = get_elem? strings a
