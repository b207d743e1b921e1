-- ===== src/Jqer.antt =====
-- pkg/jqer/jqer.go: which texts of a query are jq programs, and what a query with such texts in it
-- evaluates to.
pub mod Outcomes
pub mod Strings
pub mod Total
pub mod Template
mod Tests
use Prim.Native.Char.{Char}
use package.text.Mathlib.TextBridge.{of_list}
use direktiv.Base.{
  ℕ, zero, suc, ◌+◌, ◌-◌, ◌==◌, ltb, String, Bool, true, false, not, ◌&&◌, List, [], ◌∷◌, ◌++◌,
  length, Option, none, some, Error, new, within, at, if◌then◌else◌, Dict,
}
use direktiv.Model.Value.{
  Value, null, boolean, text, int, float, array, object, Items, nil, cons, Fields, end, field,
}
use direktiv.Jqer.Outcomes.{
  Answer, Emitted, Gojq, Parsed, Settings, answer, blame, broken, collect, element, engine_settings,
  fault, gather, panics, program, single, syntax_error, unfinished, value, ◌>>=◌,
}
use direktiv.Jqer.Strings.{
  Text, chars, bytes, drop, take, init, is_nil, has_prefix, has_suffix, find, trim_space, sort,
}

-- The variables of the loop that searches a text.
pub record Search : Type 0 where
  pub parts : List Value
  pub out : List Value
  pub found : Bool
  pub offset : ℕ

-- The check on the results of a query inside a text, of which the first is used.
unfoldable pub first_result : ℕ → List Value → List Value → Answer Value
first_result offset [] [] = panics
first_result offset (p ∷ parts) [] = fault (at "error in jq query" offset (new "no results"))
first_result offset [] (x ∷ xs) = answer x
first_result offset (p ∷ parts) (x ∷ []) = answer x
first_result offset (p ∷ parts) (x ∷ y ∷ xs) =
    fault (at "error in jq query" offset (new "more than one result"))

-- A part of a text that is no query, unless it is empty.
abbrev pub plain : Text → List Value
plain [] = []
plain (c ∷ s) = text (of_list (c ∷ s)) ∷ []

-- The marks that a query begins and ends with, one character at a time: `skip` characters of a mark
-- are left, and `counter` marks are open. The result is the text up to the mark that closes the
-- first one, and the text behind it. An empty closing mark closes all that are open, at the first
-- place with no opening one.
abbrev pub step : Text → Text → ℕ → Text → ℕ × ℕ
step inc dec counter s =
    if has_prefix inc s
    then (length inc - 1, suc counter)
    else (if has_prefix dec s then (length dec - 1, counter - 1) else (zero, counter))

abbrev pub consume : Char → Option (Text × Text) → Option (Text × Text)
consume c none = none
consume c (some (body, rest)) = some (c ∷ body, rest)

unfoldable pub scan : Text → Text → ℕ → ℕ → Text → Option (Text × Text)
scan inc dec zero zero s = some ([], s)
scan inc dec (suc skip) counter [] = none
scan inc dec zero (suc counter) [] = none
scan inc dec (suc skip) counter (c ∷ s) = consume c (scan inc dec skip counter s)
scan inc dec zero (suc counter) (c ∷ s) =
    let (skip, count) = step inc dec (suc counter) (c ∷ s) in
    let rest = consume c (scan inc dec skip count s) in
    if is_nil dec && not (has_prefix inc (c ∷ s)) then some ([], c ∷ s) else rest

module _ (settings : Settings) (gojq : Gojq) where
  -- `jq`.
  unfoldable pub jq : Value → Text → Answer (List Value)
  unfolding collect
  jq input command = elim (gojq.parse command) [
    | syntax_error e ↦ fault e
    | program run ↦ collect (run (gojq.reread input))
  ]

  -- The variables after a query with the results `xs`, of which `x` is used.
  abbrev pub after_query : Text → Text → List Value → Value → Search → Search
  after_query pre body xs x state = record {
    parts = state.parts ++ (plain pre ++ (x ∷ []));
    out = xs;
    found = true;
    offset =
        (state.offset + bytes pre)
        + ((bytes settings.wrapping_begin + bytes settings.wrapping_increment) + bytes body);
  }

  unfoldable pub run_query : Value → Text → Text → Search → Answer Search
  unfolding jq first_result
  run_query input pre body state = do
    let offset = state.offset + bytes pre
    xs ← blame (at "error running jq query" offset) (jq input (init body))
    x ← first_result offset (state.parts ++ plain pre) xs
    answer (after_query pre body xs x state)

  abbrev pub begin : Text
  begin = settings.wrapping_begin ++ settings.wrapping_increment

  -- A round of the loop that has found a query: `body` is its text with the closing mark. Where it
  -- is empty, the bounds of the slice of the query are out of order.
  unfoldable pub use_query : Value → Text → Text → Search → Answer Search
  unfolding run_query
  use_query input pre [] state = panics
  use_query input pre (c ∷ cs) state = run_query input pre (c ∷ cs) state

  -- The loop, on fuel: each round takes a query off the text. An empty opening mark is found again
  -- and again at one place, and the inner loop does not end.
  unfoldable pub search : ℕ → Value → Search → Text → Answer Search
  unfolding use_query
  search zero input state query = unfinished
  search (suc fuel) input state query = elim (find begin query) [
    | none ↦ answer (record state { parts = state.parts ++ plain query })
    | some (pre, here) ↦
        let from = drop (length begin) here in
        if is_nil settings.wrapping_increment && not (is_nil from)
        then unfinished
        else (elim (scan settings.wrapping_increment settings.wrapping_decrement 0 1 from) [
          | none ↦
              fault
                (at "unterminated jq query beginning at offset" (state.offset + bytes pre) (new ""))
          | some (body, rest) ↦
              use_query input pre body state >>= λ next. search fuel input next rest
        ])
  ]

  abbrev pub shown : Value → Text
  shown (text s) = chars s
  shown v = chars (gojq.encode v)

  abbrev pub joined : List Value → Text
  joined [] = []
  joined (v ∷ vs) = shown v ++ joined vs

  -- What the parts of a text make: the text itself where no query is found.
  unfoldable pub assemble : String → Search → List Value
  assemble s state =
      if not state.found
      then text s ∷ []
      else (if length state.parts == 1 then state.out else text (of_list (joined state.parts)) ∷ [])

  -- A text that is one query from its begin to its end.
  unfoldable pub whole_query : Value → String → Text → Answer (List Value)
  unfolding jq
  whole_query input s query =
      let close = settings.wrapping_decrement in
      if has_prefix begin query && has_suffix close query
      then (if ltb (length query) (length begin + length close)
          then panics
          else jq input
              (take (length query - (length begin + length close)) (drop (length begin) query)))
      else answer (text s ∷ [])

  abbrev pub trimmed : Text → Text
  trimmed s = if settings.trim_whitespace_on_query_strings then trim_space s else s

  -- `strings.Index(s, query)`, which is at hand where the text was trimmed.
  abbrev pub leading : Text → ℕ
  leading s = elim (find (trimmed s) s) [ none ↦ 0 | some (pre, here) ↦ bytes pre ]

  unfoldable pub recurse_into_string : Value → String → Answer (List Value)
  unfolding search assemble whole_query
  recurse_into_string input s =
      let query = trimmed (chars s) in
      let start : Search = record {
        parts = [];
        out = [];
        found = false;
        offset = leading (chars s);
      } in
      if not settings.search_in_strings
      then whole_query input s query
      else (search (suc (length query)) input start query >>= λ state. answer (assemble s state))

  mutual
    unfolding recurse_into_string gather

    pub recursive_evaluate : Value → Value → Answer (List Value)
    recursive_evaluate input null = answer (null ∷ [])
    recursive_evaluate input (boolean b) = answer (boolean b ∷ [])
    recursive_evaluate input (int n) = answer (int n ∷ [])
    recursive_evaluate input (float m e) = answer (float m e ∷ [])
    recursive_evaluate input (text s) = recurse_into_string input s
    recursive_evaluate input (array qs) =
        recurse_into_array input 0 qs >>= λ xs. answer (array xs ∷ [])
    recursive_evaluate input (object m) =
        gather (sort (outcomes input m)) >>= λ out. answer (object out ∷ [])

    pub recurse_into_array : Value → ℕ → Items → Answer Items
    recurse_into_array input i nil = answer nil
    recurse_into_array input i (cons q qs) = do
      x ← element (at "error in element" i) (recursive_evaluate input q)
      rest ← recurse_into_array input (suc i) qs
      answer (cons x rest)

    pub outcomes : Value → Fields → Dict (Answer (List Value))
    outcomes input end = []
    outcomes input (field k q m) = (k, recursive_evaluate input q) ∷ outcomes input m

  unfoldable pub evaluate : Value → Value → Answer (List Value)
  unfolding jq recursive_evaluate
  evaluate input null = answer (input ∷ [])
  evaluate input (text s) =
      if not settings.string_query_requires_wrappings
      then jq input (chars s)
      else recursive_evaluate input (text s)
  evaluate input query = recursive_evaluate input query
