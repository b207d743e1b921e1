-- ===== src/Jqer/Template/Holes.antt =====
-- The holes of a text, and the parts that the loop collects at them.
use package.text.Mathlib.TextBridge.{of_list}
use direktiv.Base.{
  ◌<◌, ◌≡◌, refl, ap, ◌∙◌, List, [], ◌∷◌, ◌++◌, arith, length, Bool, true, false, length-append,
}
use package.mathlib.Core.List.{append_assoc}
use package.mathlib.Core.List.{append-nil}
use direktiv.Model.Value.{text, Value}
use direktiv.Jqer.Strings.{Text, chars}
use direktiv.Jqer.{jq, plain, shown, joined}
use direktiv.Jqer.Outcomes.{engine_settings, Gojq, answer}
use direktiv.Jqer.Template.{IsPlain, balanced, quoted}

-- A query of a text, with the text before it and the value that it gives.
pub record Hole : Type 0 where
  pub pre : Text
  pub query : Text
  pub result : Value

-- The text with the holes as they are written, and with their values in their places.
abbrev pub written : List Hole → Text → Text
written [] tail = tail
written (h ∷ hs) tail = h.pre ++ quoted h.query (written hs tail)

abbrev pub filled : Gojq → List Hole → Text → Text
filled gojq [] tail = tail
filled gojq (h ∷ hs) tail = h.pre ++ (shown engine_settings gojq h.result ++ filled gojq hs tail)

-- The query is closed, stands behind a text that has none, and gives its one value.
pub record IsHole (gojq : Gojq) (input : Value) (h : Hole) : Type 0 where
  pub plain_before : IsPlain h.pre
  pub closed : balanced 0 h.query ≡ true
  pub gives : jq engine_settings gojq input h.query ≡ answer (h.result ∷ [])

-- The parts that the loop collects.
abbrev pub pieces : List Hole → Text → List Value
pieces [] tail = plain tail
pieces (h ∷ hs) tail = plain h.pre ++ (h.result ∷ pieces hs tail)

abbrev pub any_hole : List Hole → Bool
any_hole [] = false
any_hole (h ∷ hs) = true

joined-append :
    (gojq : Gojq) (vs ws : List Value)
    → joined engine_settings gojq (vs ++ ws)
      ≡ joined engine_settings gojq vs ++ joined engine_settings gojq ws
joined-append gojq [] ws = refl
joined-append gojq (v ∷ vs) ws = simp (joined-append gojq vs ws, append_assoc)

chars-of_list : (s : Text) → chars (of_list s) ≡ s
chars-of_list [] = refl
chars-of_list (c ∷ s) = ap (λ t. c ∷ t) (chars-of_list s)

joined-plain : (gojq : Gojq) (s : Text) → joined engine_settings gojq (plain s) ≡ s
joined-plain gojq [] = refl
joined-plain gojq (c ∷ s) = simp (chars-of_list, append-nil)

pub joined-pieces :
    (gojq : Gojq) (hs : List Hole) (tail : Text)
    → joined engine_settings gojq (pieces hs tail) ≡ filled gojq hs tail
joined-pieces gojq [] tail = joined-plain gojq tail
joined-pieces gojq (h ∷ hs) tail =
    joined-append gojq (plain h.pre) (h.result ∷ pieces hs tail)
    ∙ simp (joined-plain gojq h.pre, joined-pieces gojq hs tail)

-- A text is the query alone: no other text, and no other query.
abbrev pub IsAlone : List Hole → Text → Type 0
IsAlone (h ∷ []) [] = h.pre ≡ []
IsAlone _ _ = ⊥

length-pieces-pos : (h : Hole) (hs : List Hole) (tail : Text) → 0 < length (pieces (h ∷ hs) tail)
length-pieces-pos h hs tail =
    let a = length-append (plain h.pre) (h.result ∷ pieces hs tail) in omega (arith, a)

-- More than one part comes from a text that is not one query.
pub length-pieces :
    (h : Hole) (hs : List Hole) (tail : Text)
    → (IsAlone (h ∷ hs) tail → ⊥)
    → 1 < length (pieces (h ∷ hs) tail)
length-pieces h (h' ∷ hs) tail alone =
    let a = length-append (plain h.pre) (h.result ∷ pieces (h' ∷ hs) tail) in
    let b = length-pieces-pos h' hs tail in omega (arith, a, b)
length-pieces h [] (c ∷ tail) alone =
    let a = length-append (plain h.pre) (h.result ∷ pieces [] (c ∷ tail)) in omega (arith, a)
length-pieces h [] [] alone = by_text h.pre refl
  where
    by_text : (s : Text) → h.pre ≡ s → 1 < length (plain s ++ (h.result ∷ []))
    by_text [] e = absurd (alone e)
    by_text (c ∷ s) e = omega arith

pub length-written : (h : Hole) (rest : Text) → length rest < length (h.pre ++ quoted h.query rest)
length-written h rest =
    let a = length-append h.pre (quoted h.query rest) in
    let b = length-append h.query (")" ∷ rest) in omega (arith, a, b)
