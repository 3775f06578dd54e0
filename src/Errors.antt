-- ===== src/Errors.antt =====
-- app/core/exceptions.py: the exceptions that the services raise.
use prime_pizza_backend.Base.{ℕ, String}
use prime_pizza_backend.Text.{Text}
use prime_pizza_backend.Enums.{OrderStatus}

-- The message: a constant, or an f-string with one number or one text in it.
pub data Message : Type 0 where
  text : String → Message
  with_number : String → ℕ → String → Message
  with_text : String → Text → String → Message
  -- f"Cannot transition from {…} to {…}"
  transition : OrderStatus → OrderStatus → Message

pub data AppException : Type 0 where
  validation_exception : Message → AppException
  not_found_exception : Message → AppException
  unauthorized_exception : Message → AppException
  forbidden_exception : Message → AppException
  conflict_exception : Message → AppException
  redis_exception : Message → AppException
  rate_limit_exception : Message → AppException
  invalid_token_exception : Message → AppException
  expired_token_exception : Message → AppException
  -- Python's own `AssertionError`
  assertion_error : AppException
  -- The Redis client's `ConnectionError`, where a service does not catch it
  connection_error : AppException

-- `exc.message`
abbrev pub message_of : AppException → Message
message_of (validation_exception m) = m
message_of (not_found_exception m) = m
message_of (unauthorized_exception m) = m
message_of (forbidden_exception m) = m
message_of (conflict_exception m) = m
message_of (redis_exception m) = m
message_of (rate_limit_exception m) = m
message_of (invalid_token_exception m) = m
message_of (expired_token_exception m) = m
message_of assertion_error = text ""
message_of connection_error = text ""

-- The HTTP status that each class carries.
unfoldable pub status_code : AppException → ℕ
status_code (validation_exception _) = 422
status_code (not_found_exception _) = 404
status_code (unauthorized_exception _) = 401
status_code (forbidden_exception _) = 403
status_code (conflict_exception _) = 409
status_code (redis_exception _) = 503
status_code (rate_limit_exception _) = 429
status_code (invalid_token_exception _) = 401
status_code (expired_token_exception _) = 401
status_code assertion_error = 500
status_code connection_error = 500
