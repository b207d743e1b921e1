-- ===== src/Jqer/Outcomes.antt =====
-- The settings of pkg/jqer, what it takes from gojq, and the outcomes of its calls.
use direktiv.Base.{String, Bool, true, List, [], ◌∷◌, Error, new, within, Dict}
use direktiv.Model.Value.{Value, Fields, end, field}
use direktiv.Jqer.Strings.{Text, chars}

-- The variables of the package.
pub record Settings : Type 0 where
  pub string_query_requires_wrappings : Bool
  pub trim_whitespace_on_query_strings : Bool
  pub search_in_strings : Bool
  pub wrapping_begin : Text
  pub wrapping_increment : Text
  pub wrapping_decrement : Text

-- The settings that `NewWorkflowServer` makes.
abbrev pub engine_settings : Settings
engine_settings = record {
  string_query_requires_wrappings = true;
  trim_whitespace_on_query_strings = true;
  search_in_strings = true;
  wrapping_begin = chars "jq";
  wrapping_increment = chars "(";
  wrapping_decrement = chars ")";
}

-- What github.com/itchyny/gojq gives back: a program, whose run emits values and errors, or a syntax
-- error. `encode` is the JSON text of a value, and `reread` what `json.Unmarshal` makes of it.
pub data Emitted : Type 0 where
  value : Value → Emitted
  broken : Error → Emitted

pub data Parsed : Type 0 where
  program : (Value → List Emitted) → Parsed
  syntax_error : Error → Parsed

pub record Gojq : Type 0 where
  pub parse : Text → Parsed
  pub encode : Value → String
  pub reread : Value → Value

-- The outcome of a call; `unfinished` says that the fuel of the loop ran out.
pub data Answer (A : Type 0) : Type 0 where
  answer : A → Answer A
  fault : Error → Answer A
  panics : Answer A
  unfinished : Answer A

infixl 5 ◌>>=◌
abbrev pub ◌>>=◌ : {A B : Type 0} → Answer A → (A → Answer B) → Answer B
answer a >>= k = k a
fault e >>= k = fault e
panics >>= k = panics
unfinished >>= k = unfinished

abbrev pub blame : {A : Type 0} → (Error → Error) → Answer A → Answer A
blame f (answer a) = answer a
blame f (fault e) = fault (f e)
blame f panics = panics
blame f unfinished = unfinished

-- The loop over the iterator of a run, which an error ends.
unfoldable pub collect : List Emitted → Answer (List Value)
collect [] = answer []
collect (broken e ∷ rest) = fault e
collect (value v ∷ rest) = collect rest >>= λ vs. answer (v ∷ vs)

-- What a query inside a list or a map must give back: one result.
abbrev pub single : (Error → Error) → List Value → Answer Value
single f [] = fault (f (new "no results"))
single f (x ∷ []) = answer x
single f (x ∷ y ∷ rest) = fault (f (new "more than one result"))

-- An element of a list or a map, from the outcome of its query.
abbrev pub element : (Error → Error) → Answer (List Value) → Answer Value
element f outcome = blame f outcome >>= single f

-- The outcomes of the entries of a map are taken in the order of their keys.
unfoldable pub gather : Dict (Answer (List Value)) → Answer Fields
gather [] = answer end
gather ((k, outcome) ∷ rest) = do
  x ← element (within k) outcome
  m ← gather rest
  answer (field k x m)
