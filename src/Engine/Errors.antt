-- ===== src/Engine/Errors.antt =====
-- pkg/direktiv/errors.go: the three error types of the engine, and any other error.
use direktiv.Base.{String, Error}

-- `internal e` wraps `e`; where it was made (`Function`, `File`, `Line`) is left out.
pub data Failure : Type 0 where
  catchable : String → String → Failure
  uncatchable : String → String → Failure
  internal : Error → Failure
  other : Error → Failure

-- An error of one of the three types is passed on as it is.
unfoldable pub new_internal_error : Failure → Failure
new_internal_error (internal e) = internal e
new_internal_error (uncatchable code message) = uncatchable code message
new_internal_error (catchable code message) = catchable code message
new_internal_error (other e) = internal e

-- `format` is the caller's format string, as a function of the message.
unfoldable pub wrap_catchable_error : (String → String) → Failure → Failure
wrap_catchable_error format (catchable code message) = catchable code (format message)
wrap_catchable_error format e = e
