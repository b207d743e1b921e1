-- ===== src/Jqer/Total.antt =====
-- The loop of `recurseIntoString` ends.
pub mod Lengths
use direktiv.Base.{
  ◌∙◌, ap, at, within, ltb, ℕ, zero, suc, ◌+◌, ◌<◌, ◌≤◌, ◌≡◌, refl, List, [], ◌∷◌, Option, none,
  some, inl, inr, arith, length, Option-cases, Bool-cases, Dict, String, All, Error, false, not,
  ◌&&◌,
}
use direktiv.Model.Value.{
  Value, null, boolean, int, float, text, array, object, Items, nil, cons, Fields, end, field,
}
use direktiv.Jqer.Total.Lengths.{scan-lt, find-length, length-drop}
use direktiv.Jqer.Strings.{
  Text, find, has_prefix, has_suffix, drop, sort, insert_sorted, past, text_le, chars,
}
use direktiv.Jqer.{
  run_query, assemble, leading, trimmed, Char, is_nil, scan, consume, step, jq, first_result,
  use_query, search, Search, recurse_into_string, whole_query, recursive_evaluate,
  recurse_into_array, outcomes, evaluate, begin,
}
use direktiv.Jqer.Outcomes.{
  element, Answer, answer, fault, panics, unfinished, ◌>>=◌, blame, single, Settings, Gojq, Emitted,
  value, broken, Parsed, program, syntax_error, collect, gather,
}

-- The call comes to an end.
abbrev pub Ends : {A : Type 0} → Answer A → Type 0
Ends (answer a) = Unit {0}
Ends (fault e) = Unit {0}
Ends panics = Unit {0}
Ends unfinished = ⊥

bind-Ends :
    {A B : Type 0} (m : Answer A) (k : A → Answer B)
    → Ends m
    → ((a : A) → Ends (k a))
    → Ends (m >>= k)
bind-Ends (answer a) k h f = f a
bind-Ends (fault e) k h f = tt
bind-Ends panics k h f = tt
bind-Ends unfinished k h f = h

blame-Ends : {A : Type 0} (f : Error → Error) (m : Answer A) → Ends m → Ends (blame f m)
blame-Ends f (answer a) h = tt
blame-Ends f (fault e) h = tt
blame-Ends f panics h = tt
blame-Ends f unfinished h = h

single-Ends : (f : Error → Error) (xs : List Value) → Ends (single f xs)
single-Ends f [] = tt
single-Ends f (x ∷ []) = tt
single-Ends f (x ∷ y ∷ xs) = tt

collect-Ends : (es : List Emitted) → Ends (collect es)
unfolding collect
collect-Ends [] = tt
collect-Ends (broken e ∷ rest) = tt
collect-Ends (value v ∷ rest) =
    bind-Ends (collect rest) (λ vs. answer (v ∷ vs)) (collect-Ends rest) (λ vs. tt)

first_result-Ends : (offset : ℕ) (parts xs : List Value) → Ends (first_result offset parts xs)
unfolding first_result
first_result-Ends offset [] [] = tt
first_result-Ends offset (p ∷ parts) [] = tt
first_result-Ends offset [] (x ∷ xs) = tt
first_result-Ends offset (p ∷ parts) (x ∷ []) = tt
first_result-Ends offset (p ∷ parts) (x ∷ y ∷ xs) = tt

element-Ends : (f : Error → Error) (m : Answer (List Value)) → Ends m → Ends (element f m)
element-Ends f m h = bind-Ends (blame f m) (single f) (blame-Ends f m h) (single-Ends f)

gather-Ends :
    (m : Dict (Answer (List Value)))
    → All (λ (e : String × Answer (List Value)). Ends e.1) m
    → Ends (gather m)
unfolding gather
gather-Ends [] h = tt
gather-Ends ((k, outcome) ∷ rest) h =
    bind-Ends (element (within k) outcome) _ (element-Ends (within k) outcome h.0)
      (λ x. bind-Ends (gather rest) (λ m. answer (field k x m)) (gather-Ends rest h.1) (λ m. tt))

insert_sorted-All :
    (k : String) (v : Answer (List Value)) (m : Dict (Answer (List Value)))
    → Ends v
    → All (λ (e : String × Answer (List Value)). Ends e.1) m
    → All (λ (e : String × Answer (List Value)). Ends e.1) (insert_sorted k v m)
unfolding insert_sorted
insert_sorted-All k v [] e h = (e, tt)
insert_sorted-All k v ((j, w) ∷ m) e h = elim (Bool-cases (text_le (chars k) (chars j))) [
  | inl t ↦ rw t (e, h)
  | inr t ↦ rw t (h.0, insert_sorted-All k v m e h.1)
]

sort-All :
    (m : Dict (Answer (List Value)))
    → All (λ (e : String × Answer (List Value)). Ends e.1) m
    → All (λ (e : String × Answer (List Value)). Ends e.1) (sort m)
unfolding sort
sort-All [] h = tt
sort-All ((k, v) ∷ m) h = insert_sorted-All k v (sort m) h.0 (sort-All m h.1)

module _ (settings : Settings) (gojq : Gojq)
    (opens : is_nil settings.wrapping_increment ≡ false) where
  jq-Ends : (input : Value) (command : Text) → Ends (jq settings gojq input command)
  unfolding jq
  jq-Ends input command = parsed (gojq.parse command)
    where
      parsed :
          (p : Parsed)
          → Ends (elim p [
            | syntax_error e ↦ fault e
            | program run ↦ collect (run (gojq.reread input))
          ])
      parsed (syntax_error e) = tt
      parsed (program run) = collect-Ends (run (gojq.reread input))

  run_query-Ends :
      (input : Value) (pre body : Text) (state : Search)
      → Ends (run_query settings gojq input pre body state)
  unfolding run_query
  run_query-Ends input pre body state =
      bind-Ends (blame _ (jq settings gojq input _)) _
        (blame-Ends _ (jq settings gojq input _) (jq-Ends input _))
        (λ xs. bind-Ends (first_result _ _ xs) _ (first_result-Ends _ _ xs) (λ x. tt))

  use_query-Ends :
      (input : Value) (pre body : Text) (state : Search)
      → Ends (use_query settings gojq input pre body state)
  unfolding use_query
  use_query-Ends input pre [] state = tt
  use_query-Ends input pre (c ∷ cs) state = run_query-Ends input pre (c ∷ cs) state

  -- What is left for the next round, where a query was found.
  round-Ends :
      (fuel : ℕ) (input : Value) (pre body rest : Text) (state : Search)
      → ((b : Char) (bs : Text)
          → body ≡ b ∷ bs
          → (next : Search) → Ends (search settings gojq fuel input next rest))
      → Ends (
          use_query settings gojq input pre body state >>= λ next.
          search settings gojq fuel input next rest)
  unfolding use_query
  round-Ends fuel input pre [] rest state f = tt
  round-Ends fuel input pre (b ∷ bs) rest state f =
      bind-Ends (run_query settings gojq input pre (b ∷ bs) state)
        (λ next. search settings gojq fuel input next rest)
        (run_query-Ends input pre (b ∷ bs) state) (f b bs refl)

  search-Ends :
      (fuel : ℕ) (input : Value) (state : Search) (query : Text)
      → length query < fuel
      → Ends (search settings gojq fuel input state query)
  unfolding search
  search-Ends zero input state query h = absurd (omega arith)
  search-Ends (suc fuel) input state query h =
      elim (Option-cases (find (begin settings gojq) query)) [
        | inl e ↦ rw (e, Ends) tt
        | inr ((pre, here), e) ↦
            let from = drop (length (begin settings gojq)) here in
            let inc = settings.wrapping_increment in
            let dec = settings.wrapping_decrement in
            elim (Option-cases (scan inc dec 0 1 from)) [
              | inl t ↦ rw (e, opens, t, Ends) tt
              | inr ((body, rest), t) ↦
                  let l = find-length (begin settings gojq) query pre here e in
                  let d = length-drop (length (begin settings gojq)) here in
                  rw (e, opens, t, Ends)
                    (round-Ends fuel input pre body rest state (λ b bs q next.
                      let r = scan-lt inc dec from (t ∙ ap (λ x. some (x, rest)) q) in
                      search-Ends fuel input next rest (omega (arith, l, d, r))))
            ]
      ]

  whole_query-Ends :
      (input : Value) (s : String) (query : Text) → Ends (whole_query settings gojq input s query)
  unfolding whole_query
  whole_query-Ends input s query =
      let close = settings.wrapping_decrement in
      let open_ = begin settings gojq in
      elim (Bool-cases (has_prefix open_ query && has_suffix close query)) [
        | inr e ↦ rw e tt
        | inl e ↦ elim (Bool-cases (ltb (length query) (length open_ + length close))) [
          | inl t ↦ rw (e, t) tt
          | inr t ↦ rw (e, t) (jq-Ends input _)
        ]
      ]

  string-Ends : (input : Value) (s : String) → Ends (recurse_into_string settings gojq input s)
  unfolding recurse_into_string
  string-Ends input s = elim (Bool-cases (not settings.search_in_strings)) [
    | inl e ↦ rw e (whole_query-Ends input s _)
    | inr e ↦
        let query = trimmed settings gojq (chars s) in
        let start : Search = record {
          parts = [];
          out = [];
          found = false;
          offset = leading settings gojq (chars s);
        } in
        let fuel = suc (length query) in
        rw e (
          bind-Ends (search settings gojq fuel input start query)
            (λ state. answer (assemble settings gojq s state))
            (search-Ends fuel input start query (omega arith)) (λ state. tt))
  ]

  mutual
    unfolding recursive_evaluate recurse_into_array outcomes

    recursive-Ends : (input query : Value) → Ends (recursive_evaluate settings gojq input query)
    recursive-Ends input null = tt
    recursive-Ends input (boolean b) = tt
    recursive-Ends input (int n) = tt
    recursive-Ends input (float m e) = tt
    recursive-Ends input (text s) = string-Ends input s
    recursive-Ends input (array qs) =
        bind-Ends (recurse_into_array settings gojq input 0 qs) (λ xs. answer (array xs ∷ []))
          (array-Ends input 0 qs) (λ xs. tt)
    recursive-Ends input (object m) =
        bind-Ends (gather (sort (outcomes settings gojq input m))) (λ out. answer (object out ∷ []))
          (gather-Ends _ (sort-All _ (outcomes-Ends input m))) (λ out. tt)

    array-Ends :
        (input : Value) (i : ℕ) (qs : Items) → Ends (recurse_into_array settings gojq input i qs)
    array-Ends input i nil = tt
    array-Ends input i (cons q qs) =
        bind-Ends (element (at "error in element" i) (recursive_evaluate settings gojq input q)) _
          (element-Ends (at "error in element" i) (recursive_evaluate settings gojq input q)
            (recursive-Ends input q))
          (λ x.
            bind-Ends (recurse_into_array settings gojq input (suc i) qs)
              (λ rest. answer (cons x rest)) (array-Ends input (suc i) qs) (λ rest. tt))

    outcomes-Ends :
        (input : Value) (m : Fields)
        → All (λ (e : String × Answer (List Value)). Ends e.1) (outcomes settings gojq input m)
    outcomes-Ends input end = tt
    outcomes-Ends input (field k q m) = (recursive-Ends input q, outcomes-Ends input m)

-- Evaluation comes to an end for every query and all settings whose opening mark is not empty: the
-- fuel of the loop over a text, one round more than the text has characters, is enough. It may end
-- by an error or a panic.
pub evaluate-Ends :
    (settings : Settings) (gojq : Gojq) (input query : Value)
    → is_nil settings.wrapping_increment ≡ false
    → Ends (evaluate settings gojq input query)
unfolding evaluate
evaluate-Ends settings gojq input null opens = tt
evaluate-Ends settings gojq input (text s) opens =
    elim (Bool-cases (not settings.string_query_requires_wrappings)) [
      | inl e ↦ rw e (jq-Ends settings gojq opens input (chars s))
      | inr e ↦ rw e (recursive-Ends settings gojq opens input (text s))
    ]
evaluate-Ends settings gojq input (boolean b) opens = tt
evaluate-Ends settings gojq input (int n) opens = tt
evaluate-Ends settings gojq input (float m e) opens = tt
evaluate-Ends settings gojq input (array qs) opens =
    recursive-Ends settings gojq opens input (array qs)
evaluate-Ends settings gojq input (object m) opens =
    recursive-Ends settings gojq opens input (object m)
