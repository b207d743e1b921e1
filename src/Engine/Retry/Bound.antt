-- ===== src/Engine/Retry/Bound.antt =====
-- When an action is tried again, and how often at most.
use direktiv.Base.{
  ℕ, ◌<◌, ◌≡◌, refl, String, true, false, List, [], ◌∷◌, In, Option, none, some, inl, inr, arith,
  Bool-cases,
}
use direktiv.Model.Value.{ℤ, pos, negsuc}
use direktiv.Model.Common.{RetryDefinition}
use direktiv.Engine.Errors.{Failure, catchable, uncatchable, internal, other}
use direktiv.Engine.Services.{Services}
use direktiv.Engine.Run.{pattern_of}
use direktiv.Engine.Retry.{is_retryable, retry_delay, preprocess_retry, is_exceeded, again}

is_retryable-In :
    (services : Services) (code : String) (patterns : List String)
    → is_retryable services code patterns ≡ true
    → (p : String) × In p patterns × (services.match_string (pattern_of p) code ≡ true)
unfolding is_retryable
is_retryable-In services code [] h = absurd (ground arith)
is_retryable-In services code (p ∷ ps) h =
    elim (Bool-cases (services.match_string (pattern_of p) code)) [
      | inl e ↦ (p, inl refl, e)
      | inr e ↦ let (q, i, m) = is_retryable-In services code ps (ground arith) in (q, inr i, m)
    ]

within_limit :
    (attempt : ℕ) (max : ℤ)
    → is_exceeded attempt max ≡ false
    → (n : ℕ) × (max ≡ pos n) × (attempt < n)
within_limit attempt (pos n) h = (n, refl, ground arith)
within_limit attempt (negsuc n) h = absurd (ground arith)

-- Why an action is tried again.
abbrev pub Justified : Services → Option RetryDefinition → ℕ → Failure → ℤ → Type 0
Justified services retry attempt e d =
    (r : RetryDefinition) × (code : String) × (message : String) × (pattern : String) × (n : ℕ)
    × (retry ≡ some r)
    × (e ≡ catchable code message)
    × In pattern r.codes
    × (services.match_string (pattern_of pattern) code ≡ true)
    × (r.max_attempts ≡ pos n)
    × (attempt < n)
    × (d ≡ retry_delay services attempt r.delay r.multiplier)

-- An action is tried again only after a catchable error whose code one of the patterns of its
-- retry definition matches, and only while fewer attempts were made than that definition allows.
-- It is tried after the delay of the definition.
pub preprocess_retry-Justified :
    (services : Services) (retry : Option RetryDefinition) (attempt : ℕ) (e : Failure) (d : ℤ)
    → preprocess_retry services retry attempt e ≡ again d
    → Justified services retry attempt e d
unfolding preprocess_retry
preprocess_retry-Justified services none attempt e d h = absurd (ground arith)
preprocess_retry-Justified services (some r) attempt (uncatchable code message) d h =
    absurd (ground arith)
preprocess_retry-Justified services (some r) attempt (internal e) d h = absurd (ground arith)
preprocess_retry-Justified services (some r) attempt (other e) d h = absurd (ground arith)
preprocess_retry-Justified services (some r) attempt (catchable code message) d h =
    let m : is_retryable services code r.codes ≡ true = ground arith in
    let x : is_exceeded attempt r.max_attempts ≡ false = ground arith in
    let (p, i, q) = is_retryable-In services code r.codes m in
    let (n, e, l) = within_limit attempt r.max_attempts x in
    (r, code, message, p, n, refl, refl, i, q, e, l, ground arith)
