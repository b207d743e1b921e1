-- ===== src/Jqer/Template/Filled.antt =====
-- A text with queries and other text: its queries are replaced by what they give.
use package.text.Mathlib.TextBridge.{of_list}
use direktiv.Base.{
  ◌||◌, ℕ, zero, suc, ◌+◌, ◌<◌, ◌==◌, ◌≡◌, refl, ap, ◌∙◌, List, [], ◌∷◌, ◌++◌, some, arith, length,
  true, false, All, String,
}
use package.mathlib.Core.List.{append_assoc}
use direktiv.Model.Value.{text, Value}
use direktiv.Jqer.Template.Holes.{
  Hole, IsAlone, IsHole, any_hole, filled, joined-pieces, length-pieces, length-written, pieces,
  written,
}
use direktiv.Jqer.Strings.{Text, chars, find, bytes, drop, trim_space}
use direktiv.Jqer.{
  run_query, after_query, scan, Search, search, use_query, first_result, plain, joined, assemble,
  recurse_into_string, evaluate, leading,
}
use direktiv.Jqer.Outcomes.{engine_settings, Gojq, answer, ◌>>=◌}
use direktiv.Jqer.Template.{
  use_query-closed, mark, IsPlain, quoted, find-quoted, scan-balanced, init-last,
}

first_result-one :
    (offset : ℕ) (parts : List Value) (x : Value) → first_result offset parts (x ∷ []) ≡ answer x
unfolding first_result
first_result-one offset [] x = refl
first_result-one offset (p ∷ parts) x = refl

module _ (gojq : Gojq) (input : Value) where
  -- One round of the loop at a hole.
  use_query-gives :
      (h : Hole) (state : Search)
      → IsHole gojq input h
      → (next : Search) × (use_query engine_settings gojq input h.pre (h.query ++ (")" ∷ [])) state
          ≡ answer next)
        × (next.parts ≡ state.parts ++ (plain h.pre ++ (h.result ∷ [])))
        × (next.found ≡ true)
  unfolding run_query
  use_query-gives h state is =
      let offset = state.offset + bytes h.pre in
      (
        after_query engine_settings gojq h.pre (h.query ++ (")" ∷ [])) (h.result ∷ []) h.result
            state,
        use_query-closed gojq input h.pre h.query state
            ∙ rw
                (
                  init-last h.query ")",
                  is.gives,
                  first_result-one offset (state.parts ++ plain h.pre) h.result,
                )
                refl,
        refl,
        refl,
      )

  pub search-none :
      (fuel : ℕ) (state : Search) (query : Text)
      → IsPlain query
      → search engine_settings gojq (suc fuel) input state query
        ≡ answer (record state { parts = state.parts ++ plain query })
  unfolding search
  search-none fuel state query e = rw (e, search) refl

  pub search-some :
      (fuel : ℕ) (state : Search) (query pre here body rest : Text)
      → find mark query ≡ some (pre, here)
      → scan
          (engine_settings.wrapping_increment)
          (engine_settings.wrapping_decrement)
          0
          1
          (drop 3 here)
        ≡ some (body, rest)
      → search engine_settings gojq (suc fuel) input state query ≡ (
          use_query engine_settings gojq input pre body state >>= λ next.
          search engine_settings gojq fuel input next rest)
  unfolding search
  search-some fuel state query pre here body rest e t = rw (e, t, search) refl

  search-written :
      (hs : List Hole) (tail : Text) (fuel : ℕ) (state : Search)
      → All (IsHole gojq input) hs
      → IsPlain tail
      → length (written hs tail) < fuel
      → (next : Search) × (search engine_settings gojq fuel input state (written hs tail)
          ≡ answer next)
        × (next.parts ≡ state.parts ++ pieces hs tail)
        × ((state.found || any_hole hs) ≡ true → next.found ≡ true)
  unfolding search
  search-written hs tail zero state all p l = absurd (omega arith)
  search-written [] tail (suc fuel) state all p l = (
    record state { parts = state.parts ++ plain tail },
    search-none fuel state tail p,
    refl,
    λ e. ground arith,
  )
  search-written (h ∷ hs) tail (suc fuel) state all p l =
      let rest = written hs tail in
      let (now, u, parts, found) = use_query-gives h state all.0 in
      let (next, s, parts', found') =
        search-written hs tail fuel now all.1 p (omega (arith, length-written h rest)) in
      let e = find-quoted h.pre (h.query ++ (")" ∷ rest)) (all.0.plain_before) in
      let t = scan-balanced 0 h.query rest (all.0.closed) in
      (
        next,
        search-some fuel state (h.pre ++ quoted h.query rest) h.pre (quoted h.query rest)
              (h.query ++ (")" ∷ [])) rest e t
            ∙ ap (λ o. o >>= λ n. search engine_settings gojq fuel input n rest) u
            ∙ s,
        parts' ∙ simp (parts, append_assoc),
        λ _. found' (rw found refl),
      )

pub recurse-search :
    (gojq : Gojq) (input : Value) (s : String)
    → evaluate engine_settings gojq input (text s) ≡ (
        search engine_settings gojq
          (suc (length (trim_space (chars s))))
          input
          (record {
            parts = [];
            out = [];
            found = false;
            offset = leading engine_settings gojq (chars s);
          })
          (trim_space (chars s))
        >>= λ state. answer (assemble engine_settings gojq s state))
unfolding evaluate recurse_into_string
recurse-search gojq input s = refl

assemble-joined :
    (gojq : Gojq) (s : String) (state : Search)
    → state.found ≡ true
    → 1 < length state.parts
    → assemble engine_settings gojq s state
      ≡ text (of_list (joined engine_settings gojq state.parts)) ∷ []
unfolding assemble
assemble-joined gojq s state f l =
    let many : (length state.parts == 1) ≡ false = ground arith in rw (f, many) refl

-- A text in which closed queries stand between texts without queries, and each query gives one
-- value, evaluates to that text with the values in the places of the queries, white space at its
-- ends removed, if there is a query and anything besides it.
pub evaluate-filled :
    (gojq : Gojq) (input : Value) (s : String) (h : Hole) (hs : List Hole) (tail : Text)
    → trim_space (chars s) ≡ written (h ∷ hs) tail
    → All (IsHole gojq input) (h ∷ hs)
    → IsPlain tail
    → (IsAlone (h ∷ hs) tail → ⊥)
    → evaluate engine_settings gojq input (text s)
      ≡ answer (text (of_list (filled gojq (h ∷ hs) tail)) ∷ [])
evaluate-filled gojq input s h hs tail trimmed all p alone =
    let query = trim_space (chars s) in
    let start : Search = record {
      parts = [];
      out = [];
      found = false;
      offset = leading engine_settings gojq (chars s);
    } in
    let (next, q, parts, found) =
      search-written gojq input (h ∷ hs) tail (suc (length query)) start all p
        (rw trimmed (omega arith)) in
    let last = λ (state : Search). answer (assemble engine_settings gojq s state) in
    recurse-search gojq input s
    ∙ ap (λ t. search engine_settings gojq (suc (length query)) input start t >>= last) trimmed
    ∙ ap (λ o. o >>= last) q
    ∙ ap answer (
        assemble-joined gojq s next (found refl) (rw parts (length-pieces h hs tail alone))
        ∙ rw (parts, joined-pieces gojq (h ∷ hs) tail) refl)
