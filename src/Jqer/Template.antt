-- ===== src/Jqer/Template.antt =====
-- What a text with queries in it evaluates to, under the settings of the engine.
pub mod Lone
pub mod Holes
pub mod Filled
use direktiv.Base.{
  ℕ, zero, suc, ◌+◌, ◌-◌, ◌<◌, ◌≤◌, ◌==◌, ◌≡◌, refl, ap, sym, ◌∙◌, subst, List, [], ◌∷◌, ◌++◌,
  Option, none, some, inl, inr, arith, length, Bool, true, false, Bool-cases, All, String, not,
  ◌&&◌, if◌then◌else◌,
}
use direktiv.Model.Value.{Value, text}
use direktiv.Jqer.Strings.{Text, chars, same, find, has_prefix, drop, init, past}
use direktiv.Model.Value.{Value}
use direktiv.Jqer.{Search, use_query, run_query, Char, scan, consume, step, begin}
use direktiv.Jqer.Outcomes.{engine_settings, Settings, Gojq, Answer, answer}

abbrev pub mark : Text
mark = chars "jq("

-- The text has no query in it.
abbrev pub IsPlain : Text → Type 0
IsPlain s = find mark s ≡ none

-- Each bracket of the text, with `n` before it that are open, is closed in it.
unfoldable pub balanced : ℕ → Text → Bool
balanced zero [] = true
balanced (suc n) [] = false
balanced n (c ∷ q) = elim (same "(" c) [
  | true ↦ balanced (suc n) q
  | false ↦ elim (same ")" c) [
    | true ↦ elim n [ zero ↦ false | suc m ↦ balanced m q ]
    | false ↦ balanced n q
  ]
]

-- The query as it stands in a text.
abbrev pub quoted : Text → Text → Text
quoted q rest = mark ++ (q ++ (")" ∷ rest))

has_prefix-quoted :
    (c : Char) (s rest : Text)
    → has_prefix mark (c ∷ s) ≡ false
    → has_prefix mark (c ∷ (s ++ (mark ++ rest))) ≡ false
unfolding has_prefix
has_prefix-quoted c [] rest h = ground arith
has_prefix-quoted c (d ∷ []) rest h = ground arith
has_prefix-quoted c (d ∷ e ∷ s) rest h = h

past-eq-none : (c : Char) (o : Option (Text × Text)) → past c o ≡ none → o ≡ none
past-eq-none c none h = refl
past-eq-none c (some x) h = absurd (ground arith)

-- The mark is found behind a text that has none: no part of it can begin in that text.
pub find-quoted :
    (s rest : Text) → IsPlain s → find mark (s ++ (mark ++ rest)) ≡ some (s, mark ++ rest)
unfolding find
find-quoted [] rest h = refl
find-quoted (c ∷ s) rest h = elim (Bool-cases (has_prefix mark (c ∷ s))) [
  | inl e ↦ absurd (ground arith)
  | inr e ↦
      let absent : past c (find mark s) ≡ none = ground arith in
      let ih = find-quoted s rest (past-eq-none c (find mark s) absent) in
      rw (has_prefix-quoted c s rest e) (ap (past c) ih)
]

abbrev inc : Text
inc = engine_settings.wrapping_increment

abbrev dec : Text
dec = engine_settings.wrapping_decrement

-- A text with a closing mark at its end is not empty.
pub use_query-closed :
    (gojq : Gojq) (input : Value) (pre q : Text) (state : Search)
    → use_query engine_settings gojq input pre (q ++ (")" ∷ [])) state
      ≡ run_query engine_settings gojq input pre (q ++ (")" ∷ [])) state
unfolding use_query
use_query-closed gojq input pre [] state = refl
use_query-closed gojq input pre (c ∷ q) state = refl

-- What one character does to the marks that are open.
scan-opens :
    (n : ℕ) (c : Char) (s : Text)
    → same "(" c ≡ true
    → scan inc dec 0 (suc n) (c ∷ s) ≡ consume c (scan inc dec 0 (suc (suc n)) s)
unfolding scan has_prefix
scan-opens n c s e = rw e refl

scan-closes :
    (n : ℕ) (c : Char) (s : Text)
    → same "(" c ≡ false
    → same ")" c ≡ true
    → scan inc dec 0 (suc n) (c ∷ s) ≡ consume c (scan inc dec 0 n s)
unfolding scan has_prefix
scan-closes n c s e f = let one_less : suc n - 1 ≡ n = omega arith in rw (e, f, one_less) refl

scan-passes :
    (n : ℕ) (c : Char) (s : Text)
    → same "(" c ≡ false
    → same ")" c ≡ false
    → scan inc dec 0 (suc n) (c ∷ s) ≡ consume c (scan inc dec 0 (suc n) s)
unfolding scan has_prefix
scan-passes n c s e f = rw (e, f) refl

scan-done : (s : Text) → scan inc dec 0 0 s ≡ some ([], s)
unfolding scan
scan-done [] = refl
scan-done (c ∷ s) = refl

-- The case of a bracket that closes.
closing :
    (n : ℕ) (c : Char) (q rest : Text)
    → same "(" c ≡ false
    → same ")" c ≡ true
    → balanced n (c ∷ q) ≡ true
    → ((m : ℕ)
        → balanced m q ≡ true
        → scan inc dec 0 (suc m) (q ++ (")" ∷ rest)) ≡ some (q ++ (")" ∷ []), rest))
    → scan inc dec 0 (suc n) (c ∷ (q ++ (")" ∷ rest))) ≡ some (c ∷ (q ++ (")" ∷ [])), rest)
unfolding balanced
closing zero c q rest e f h ih =
    let impossible : false ≡ true = rw (e, f, balanced) at h in absurd (ground arith)
closing (suc n) c q rest e f h ih =
    scan-closes (suc n) c (q ++ (")" ∷ rest)) e f ∙ ap (consume c) (ih n (rw (e, f, balanced) at h))

pub scan-balanced :
    (n : ℕ) (q rest : Text)
    → balanced n q ≡ true
    → scan inc dec 0 (suc n) (q ++ (")" ∷ rest)) ≡ some (q ++ (")" ∷ []), rest)
unfolding balanced
scan-balanced zero [] rest h = scan-closes 0 ")" rest refl refl ∙ ap (consume ")") (scan-done rest)
scan-balanced (suc n) [] rest h = absurd (ground arith)
scan-balanced n (c ∷ q) rest h = elim (Bool-cases (same "(" c)) [
  | inl e ↦
      scan-opens n c (q ++ (")" ∷ rest)) e
      ∙ ap (consume c) (scan-balanced (suc n) q rest (rw (e, balanced) at h))
  | inr e ↦ elim (Bool-cases (same ")" c)) [
    | inl f ↦ closing n c q rest e f h (λ m. scan-balanced m q rest)
    | inr f ↦
        scan-passes n c (q ++ (")" ∷ rest)) e f
        ∙ ap (consume c) (scan-balanced n q rest (rw (e, f, balanced) at h))
  ]
]

pub init-last : (q : Text) (c : Char) → init (q ++ (c ∷ [])) ≡ q
init-last [] c = refl
init-last (d ∷ []) c = refl
init-last (d ∷ e ∷ q) c = ap (λ s. d ∷ s) (init-last (e ∷ q) c)
