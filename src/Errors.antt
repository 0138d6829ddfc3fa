-- ===== src/Errors.antt =====
-- The error values of cocaine12: one constructor for each errors.New, fmt.Errorf or error type
-- that the modelled functions return, and (value, error) results.
use cocaine_framework_go.Prelude.{ℕ, Bytes, ℤ}

pub data Error : Type 0 where
  -- protocol.go
  invalid_header_length invalid_header_type invalid_trace_type : Error
  invalid_trace_number invalid_trace_value_type not_all_traces_present : Error
  -- package io, as encoding/binary and the pipes return it; package syscall
  eof unexpected_eof closed_pipe invalid_argument : Error
  -- handler.go
  stream_is_closed bad_payload malformed_error_message : Error
  -- ErrRequest: the category, the code and the message
  request : ℤ → ℤ → Bytes → Error
  -- ServiceError: the code and the message
  service : ℤ → Bytes → Error
  -- ctx.Err()
  context_done : Error
  -- wprotov1.go: the session and the message type
  session_must_start_from_invoke : ℕ → ℕ → Error
  invalid_message_type invalid_utility_message_type : ℕ → Error
  -- workerng.go
  no_event_name disowned connection_lost : Error
  -- dispatch.go, channel.go
  no_method : Bytes → Error
  tx_is_done : Error
  -- net/http, as httpresponse.go returns it
  body_not_allowed content_length : Error
  -- an error of a package that is not part of the repository
  foreign : ℕ → Error

pub data Result {ℓ} (A : Type ℓ) : Type ℓ where
  ok : A → Result A
  err : Error → Result A
