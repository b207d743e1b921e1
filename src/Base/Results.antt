-- ===== src/Base/Results.antt =====
-- The outcome of Go code: a value, an `error`, or a panic; and Go's error values, whose text the
-- source builds by `errors.New` and `fmt.Errorf`.
use Prim.Native.Nat.{ℕ, suc}
use Prim.Native.String.{String}
use mathlib.Core.Path.{◌≡◌, refl}
use mathlib.Core.Bool.{Bool, true, false}
use mathlib.Core.Option.{Option, none, some}
use mathlib.Core.List.{List, [], ◌∷◌}
use mathlib.Core.Logic.{◌⊎◌, inl, inr}
use direktiv.Base.Lists.{All}
use native.Mathlib.Omega.{arith}

-- `at label i e` is an error that wraps `e` under "label[i]", `in_ label e` one that wraps it under
-- a label alone, `about label s` one that quotes the text `s`.
pub data Error : Type 0 where
  new : String → Error
  about : String → String → Error
  within : String → Error → Error
  at : String → ℕ → Error → Error

pub data Result {ℓ} (A : Type ℓ) : Type ℓ where
  ok : A → Result A
  err : Error → Result A
  panic : Result A

-- An error or a panic skips what follows.
infixl 5 ◌>>=◌ ◌>>◌
abbrev pub ◌>>=◌ {ℓ κ} : {A : Type ℓ} {B : Type κ} → Result A → (A → Result B) → Result B
panic >>= next = panic
err why >>= next = err why
ok value >>= next = next value

abbrev pub ◌>>◌ {ℓ} : {B : Type ℓ} → Result (Unit {0}) → Result B → Result B
first >> second = first >>= λ _. second

-- `if b { return e }`.
abbrev pub refuse : Bool → Error → Result (Unit {0})
refuse true e = err e
refuse false e = ok tt

-- `if err != nil { return fmt.Errorf(…, err) }`.
abbrev pub wrap {ℓ} : {A : Type ℓ} → (Error → Error) → Result A → Result A
wrap f (ok a) = ok a
wrap f (err e) = err (f e)
wrap f panic = panic

-- A pointer that is dereferenced: `nil` panics.
abbrev pub deref {ℓ} : {A : Type ℓ} → Option A → Result A
deref none = panic
deref (some a) = ok a

-- What is known of the parts of a chain that went well.
module _ {ℓ κ} {A : Type ℓ} {B : Type κ} where
  pub >>=-eq-ok :
      (first : Result A) (next : A → Result B) {out : B}
      → (first >>= next) ≡ ok out
      → (value : A) × (first ≡ ok value) × (next value ≡ ok out)
  >>=-eq-ok panic next went = absurd (ground arith)
  >>=-eq-ok (err why) next went = absurd (ground arith)
  >>=-eq-ok (ok value) next went = (value, refl, went)

module _ {ℓ} {B : Type ℓ} where
  pub >>-eq-ok :
      (first : Result (Unit {0})) (second : Result B) {out : B}
      → (first >> second) ≡ ok out
      → (first ≡ ok tt) × (second ≡ ok out)
  >>-eq-ok panic second went = absurd (ground arith)
  >>-eq-ok (err why) second went = absurd (ground arith)
  >>-eq-ok (ok tt) second went = (refl, went)

pub refuse-eq-ok : (b : Bool) (e : Error) → refuse b e ≡ ok tt → b ≡ false
refuse-eq-ok b e h = ground arith

pub wrap-eq-ok {ℓ} :
    {A : Type ℓ} (f : Error → Error) (m : Result A) {a : A} → wrap f m ≡ ok a → m ≡ ok a
wrap-eq-ok f (ok a) h = h
wrap-eq-ok f (err e) h = absurd (ground arith)
wrap-eq-ok f panic h = absurd (ground arith)

pub Result-cases {ℓ} :
    {A : Type ℓ} (r : Result A)
    → ((a : A) × (r ≡ ok a)) ⊎ (((e : Error) × (r ≡ err e)) ⊎ (r ≡ panic))
Result-cases (ok a) = inl (a, refl)
Result-cases (err e) = inr (inl (e, refl))
Result-cases panic = inr (inr refl)

-- No panic: the outcome is a value or an error.
abbrev pub Returns {ℓ} : {A : Type ℓ} → Result A → Type 0
Returns (ok a) = Unit {0}
Returns (err e) = Unit {0}
Returns panic = ⊥

pub >>-Returns {ℓ} :
    {B : Type ℓ} (m : Result (Unit {0})) (k : Result B) → Returns m → Returns k → Returns (m >> k)
>>-Returns (ok tt) k hm hk = hk
>>-Returns (err e) k hm hk = tt
>>-Returns panic k hm hk = hm

pub wrap-Returns {ℓ} :
    {A : Type ℓ} (f : Error → Error) (m : Result A) → Returns m → Returns (wrap f m)
wrap-Returns f (ok a) h = tt
wrap-Returns f (err e) h = tt
wrap-Returns f panic h = h

-- `for i, x := range xs { if err := check(i, x); err != nil { return err } }`.
abbrev pub for_each {ℓ} :
    {A : Type ℓ} → (ℕ → A → Result (Unit {0})) → ℕ → List A → Result (Unit {0})
for_each check i [] = ok tt
for_each check i (x ∷ xs) = check i x >> for_each check (suc i) xs

pub for_each-All {ℓ} :
    {A : Type ℓ} (check : ℕ → A → Result (Unit {0})) (i : ℕ) (xs : List A)
    → for_each check i xs ≡ ok tt
    → All (λ x. (j : ℕ) × (check j x ≡ ok tt)) xs
for_each-All check i [] h = tt
for_each-All check i (x ∷ xs) h =
    let (p, q) = >>-eq-ok (check i x) (for_each check (suc i) xs) h in
    ((i, p), for_each-All check (suc i) xs q)

pub for_each-Returns {ℓ} :
    {A : Type ℓ} (check : ℕ → A → Result (Unit {0})) (i : ℕ) (xs : List A)
    → All (λ x. (j : ℕ) → Returns (check j x)) xs
    → Returns (for_each check i xs)
for_each-Returns check i [] h = tt
for_each-Returns check i (x ∷ xs) h =
    >>-Returns (check i x) (for_each check (suc i) xs) (h.0 i)
      (for_each-Returns check (suc i) xs h.1)
