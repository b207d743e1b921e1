-- ===== src/Model/StateType.antt =====
-- pkg/model/enums.go: the types of states.
use direktiv.Base.{ℕ, String, List, [], ◌∷◌, Option, Result, get_elem?}
use direktiv.Model.Enums.{parse_name}

abbrev pub action : ℕ
action = 0

abbrev pub consume_event : ℕ
consume_event = 1

abbrev pub delay : ℕ
delay = 2

abbrev pub events_and : ℕ
events_and = 3

abbrev pub events_xor : ℕ
events_xor = 4

abbrev pub error : ℕ
error = 5

abbrev pub for_each : ℕ
for_each = 6

abbrev pub generate_event : ℕ
generate_event = 7

abbrev pub noop : ℕ
noop = 8

abbrev pub parallel : ℕ
parallel = 9

abbrev pub switch : ℕ
switch = 10

abbrev pub validate : ℕ
validate = 11

abbrev pub consume : ℕ
consume = 12

abbrev pub callback : ℕ
callback = 13

abbrev pub getter : ℕ
getter = 14

abbrev pub setter : ℕ
setter = 15

abbrev pub strings : List String
strings =
    "action" ∷ "consumeEvent" ∷ "delay" ∷ "eventAnd" ∷ "eventXor" ∷ "error" ∷ "foreach"
    ∷ "generateEvent" ∷ "noop" ∷ "parallel" ∷ "switch" ∷ "validate" ∷ "consumeEvent" ∷ "callback"
    ∷ "getter" ∷ "setter" ∷ []

unfoldable pub parse : String → Result ℕ
unfolding parse_name
parse s = parse_name "type" strings s

-- An index outside the table panics in Go, and is `none` here.
unfoldable pub name : ℕ → Option String
name a = get_elem? strings a
