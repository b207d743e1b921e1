-- ===== src/Jqer/Template/Lone.antt =====
-- A text that is one query.
use direktiv.Base.{
  true, ◌≡◌, ◌+◌, ◌∙◌, refl, ap, arith, suc, length, ℕ, List, [], ◌∷◌, ◌++◌, false, String, at,
}
use direktiv.Model.Value.{Value, text}
use direktiv.Jqer.Strings.{Text, chars, trim_space, find}
use direktiv.Jqer.{
  run_query, evaluate, after_query, jq, first_result, Search, search, use_query, assemble, leading,
}
use direktiv.Jqer.Outcomes.{engine_settings, Gojq, Answer, answer, fault, panics, unfinished, ◌>>=◌}
use direktiv.Jqer.Template.{use_query-closed, balanced, init-last, quoted, scan-balanced}
use direktiv.Jqer.Template.Filled.{recurse-search, search-some, search-none}

-- What a query that stands alone makes of the outcome of its program.
abbrev pub alone : ℕ → Answer (List Value) → Answer (List Value)
alone offset (answer []) = panics
alone offset (answer (x ∷ xs)) = answer (x ∷ xs)
alone offset (fault e) = fault (at "error running jq query" offset e)
alone offset panics = panics
alone offset unfinished = unfinished

module _ (gojq : Gojq) (input : Value) (s : String) where
  abbrev start : Search
  start = record {
    parts = [];
    out = [];
    found = false;
    offset = leading engine_settings gojq (chars s);
  }

  abbrev last : Search → Answer (List Value)
  last state = answer (assemble engine_settings gojq s state)

  -- The rounds of the loop at the query, and behind it.
  rounds : Text → Answer (List Value)
  rounds q =
      use_query engine_settings gojq input [] (q ++ (")" ∷ [])) start
      >>= (λ next. search engine_settings gojq (length (quoted q [])) input next [])
      >>= last

  opened :
      (q : Text)
      → rounds q ≡ (
          run_query engine_settings gojq input [] (q ++ (")" ∷ [])) start
          >>= (λ next. search engine_settings gojq (length (quoted q [])) input next [])
          >>= last)
  unfolding rounds
  opened q =
      ap
        (λ o.
          o >>= (λ next. search engine_settings gojq (length (quoted q [])) input next []) >>= last)
        (use_query-closed gojq input [] q start)

  rounds-alone :
      (q : Text) (o : Answer (List Value))
      → jq engine_settings gojq input q ≡ o
      → rounds q ≡ alone (leading engine_settings gojq (chars s)) o
  unfolding run_query first_result assemble find
  rounds-alone q (answer []) e = opened q ∙ rw (init-last q ")", e) refl
  rounds-alone q (answer (x ∷ xs)) e =
      let next = after_query engine_settings gojq [] (q ++ (")" ∷ [])) (x ∷ xs) x start in
      opened q
      ∙ rw (init-last q ")", e)
          (ap (λ o. o >>= last)
            (search-none gojq input (suc (suc (length (q ++ (")" ∷ []))))) next [] refl))
  rounds-alone q (fault why) e =
      let same_offset : leading engine_settings gojq (chars s) + 0
          ≡ leading engine_settings gojq (chars s) =
        omega arith in
      opened q ∙ rw (init-last q ")", e, same_offset) refl
  rounds-alone q panics e = opened q ∙ rw (init-last q ")", e) refl
  rounds-alone q unfinished e = opened q ∙ rw (init-last q ")", e) refl

-- A text that is one closed query, but for white space at its ends, gives all the results of its
-- program. An error of the program is reported with the offset of the query, and a program without
-- results makes the call panic.
pub evaluate-alone :
    (gojq : Gojq) (input : Value) (s : String) (q : Text)
    → trim_space (chars s) ≡ quoted q []
    → balanced 0 q ≡ true
    → evaluate engine_settings gojq input (text s)
      ≡ alone (leading engine_settings gojq (chars s)) (jq engine_settings gojq input q)
unfolding rounds find
evaluate-alone gojq input s q trimmed closed =
    let query = trim_space (chars s) in
    let next = start gojq input s in
    recurse-search gojq input s
    ∙ ap (λ t. search engine_settings gojq (suc (length t)) input next t >>= last gojq input s)
        trimmed
    ∙ ap (λ o. o >>= last gojq input s)
        (search-some gojq input (length (quoted q [])) next (quoted q []) [] (quoted q [])
          (q ++ (")" ∷ [])) [] refl (scan-balanced 0 q [] closed))
    ∙ rounds-alone gojq input s q (jq engine_settings gojq input q) refl
