-- ===== src/Jqer/Total/Lengths.antt =====
-- What the search takes off a text: the text that is left is shorter.
use direktiv.Base.{
  not, ◌&&◌, ℕ, zero, suc, ◌<◌, ◌≤◌, ◌≡◌, refl, [], ◌∷◌, Option, none, some, inl, inr, arith,
  length, Bool-cases,
}
use direktiv.Jqer.Strings.{Text, find, has_prefix, drop, past}
use direktiv.Jqer.{Char, is_nil, scan, consume, step}

-- What is behind a query is shorter than what the query begins with.
Shorter : Option (Text × Text) → ℕ → Type 0
Shorter none n = Unit {0}
Shorter (some (body, rest)) n = length rest ≤ n

Shorter-consume :
    (c : Char) (o : Option (Text × Text)) (n : ℕ) → Shorter o n → Shorter (consume c o) n
unfolding Shorter
Shorter-consume c none n h = tt
Shorter-consume c (some (body, rest)) n h = h

Shorter-suc : (o : Option (Text × Text)) (n : ℕ) → Shorter o n → Shorter o (suc n)
unfolding Shorter
Shorter-suc none n h = tt
Shorter-suc (some (body, rest)) n h = omega arith

scan-Shorter :
    (inc dec : Text) (skip counter : ℕ) (s : Text)
    → Shorter (scan inc dec skip counter s) (length s)
unfolding scan Shorter
scan-Shorter inc dec zero zero s = omega arith
scan-Shorter inc dec (suc skip) counter [] = tt
scan-Shorter inc dec zero (suc counter) [] = tt
scan-Shorter inc dec (suc skip) counter (c ∷ s) =
    Shorter-suc _ (length s) (Shorter-consume c _ (length s) (scan-Shorter inc dec skip counter s))
scan-Shorter inc dec zero (suc counter) (c ∷ s) =
    let (skip, count) = step inc dec (suc counter) (c ∷ s) in
    elim (Bool-cases (is_nil dec && not (has_prefix inc (c ∷ s)))) [
      | inl e ↦ rw (e, Shorter) (omega arith)
      | inr e ↦ rw e (
          Shorter-suc _ (length s)
            (Shorter-consume c _ (length s) (scan-Shorter inc dec skip count s)))
    ]

rest_of :
    (c : Char) (o : Option (Text × Text)) {n : ℕ} {body rest : Text}
    → Shorter o n
    → consume c o ≡ some (body, rest)
    → length rest < suc n
unfolding Shorter
rest_of c none l h = absurd (ground arith)
rest_of c (some (b, r)) l h = ground arith

pub scan-lt :
    (inc dec s : Text) {b : Char} {body rest : Text}
    → scan inc dec 0 1 s ≡ some (b ∷ body, rest)
    → length rest < length s
unfolding scan
scan-lt inc dec [] h = absurd (ground arith)
scan-lt inc dec (c ∷ s) h =
    let (skip, count) = step inc dec 1 (c ∷ s) in
    elim (Bool-cases (is_nil dec && not (has_prefix inc (c ∷ s)))) [
      | inl e ↦ absurd (ground (arith, rw e at h))
      | inr e ↦
          rest_of c (scan inc dec skip count s) (scan-Shorter inc dec skip count s) (rw e at h)
    ]

pub find-length : (p s pre here : Text) → find p s ≡ some (pre, here) → length here ≤ length s
unfolding find
find-length p [] pre here h = elim (Bool-cases (is_nil p)) [
  | inl e ↦ ground arith
  | inr e ↦ absurd (ground arith)
]
find-length p (c ∷ s) pre here h = elim (Bool-cases (has_prefix p (c ∷ s))) [
  | inl e ↦ ground arith
  | inr e ↦ behind (find p s) (λ pre' here' q. find-length p s pre' here' q) (ground arith)
]
  where
    behind :
        (o : Option (Text × Text))
        → ((pre here : Text) → o ≡ some (pre, here) → length here ≤ length s)
        → past c o ≡ some (pre, here)
        → length here ≤ suc (length s)
    behind none f q = absurd (ground arith)
    behind (some (pre', here')) f q = let l = f pre' here' refl in ground arith

pub length-drop : (n : ℕ) (s : Text) → length (drop n s) ≤ length s
length-drop zero s = omega arith
length-drop (suc n) [] = omega arith
length-drop (suc n) (c ∷ s) = omega (arith, length-drop n s)
