-- ===== src/Engine/Retry.antt =====
-- Whether and when an action that failed is tried again: `isRetryable`, `retryDelay` and
-- `preprocessRetry` of pkg/direktiv/state-logic-action.go, and `scheduleRetry` of engine.go.
pub mod Bound
use direktiv.Base.{
  ℕ, zero, suc, ◌<◌, String, str_eq, Bool, true, false, List, [], ◌∷◌, Option, none, some, leb, ltb,
  if◌then◌else◌, not,
}
use direktiv.Model.Value.{ℤ, pos, negsuc, Value, float}
use direktiv.Model.Common.{RetryDefinition}
use direktiv.Engine.Errors.{Failure, catchable, new_internal_error}
use direktiv.Engine.Services.{Services, seconds}
use direktiv.Engine.Run.{pattern_of}
use direktiv.Engine.World.{M, ◌>>=◌, ◌>>◌, this, emit, write, fail, done, Wakedata, scheduled_retry}

unfoldable pub is_retryable : Services → String → List String → Bool
is_retryable services code [] = false
is_retryable services code (pattern ∷ patterns) =
    if services.match_string (pattern_of pattern) code
    then true
    else is_retryable services code patterns

-- `multiplier != 0` at a `float64`.
abbrev pub is_zero_float : Value → Bool
is_zero_float (float (pos zero) e) = true
is_zero_float _ = false

-- `for i := 0; i < attempt; i++`.
unfoldable pub scaled : Services → Value → ℕ → ℤ → ℤ
scaled services multiplier zero d = d
scaled services multiplier (suc attempt) d =
    scaled services multiplier attempt (services.scale d multiplier)

abbrev pub first_delay : Services → String → ℕ
first_delay services delay = elim (services.duration delay) [ none ↦ seconds 5 | some d ↦ d ]

unfoldable pub retry_delay : Services → ℕ → String → Value → ℤ
retry_delay services attempt delay multiplier =
    if is_zero_float multiplier
    then pos (first_delay services delay)
    else scaled services multiplier attempt (pos (first_delay services delay))

-- `attempt >= retry.MaxAttempts`.
abbrev pub is_exceeded : ℕ → ℤ → Bool
is_exceeded attempt (pos n) = leb n attempt
is_exceeded attempt (negsuc n) = true

abbrev pub err_code_retries_exceeded : String
err_code_retries_exceeded = "direktiv.retries.exceeded"

-- A delay, or the error that ends the attempts.
pub data Retry : Type 0 where
  again : ℤ → Retry
  give_up : Failure → Retry

abbrev pub limited : Services → RetryDefinition → ℕ → Retry
limited services retry attempt =
    if is_exceeded attempt retry.max_attempts
    then give_up (catchable err_code_retries_exceeded "maximum retries exceeded")
    else again (retry_delay services attempt retry.delay retry.multiplier)

unfoldable pub preprocess_retry : Services → Option RetryDefinition → ℕ → Failure → Retry
preprocess_retry services (some retry) attempt (catchable code message) =
    if is_retryable services code retry.codes
    then limited services retry attempt
    else give_up (catchable code message)
preprocess_retry services _ attempt e = give_up e

-- `d < time.Second*5`.
abbrev pub is_soon : ℤ → Bool
is_soon (pos d) = ltb d (seconds 5)
is_soon (negsuc d) = true

-- `scheduleRetry` of the engine: a short delay is slept in a goroutine, a longer one is a timer,
-- which the timer manager can refuse. `retryWakeup` wakes the instance with the data after it.
unfoldable pub schedule_wakeup : String → ℤ → Wakedata → M (Unit {0})
schedule_wakeup state d wakedata = do
  i ← this
  if is_soon d then emit (scheduled_retry state i.step d wakedata) else (do
    answer ← write
    elim answer [
      | none ↦ emit (scheduled_retry state i.step d wakedata)
      | some e ↦ fail (new_internal_error e)
    ])
