-- ===== src/Message.antt =====
-- cocaine12/protocol.go and cocaine12/wprotov1.go: messages and the constructors of the protocol
-- version 1. A Go interface{} is a `Value`; a []byte in one is not nil.
pub mod Trace
pub mod RoundTrip
pub mod Headers
pub mod Span
use cocaine_framework_go.Prelude.{ℕ, Bytes, ℤ, Bool, List, [], ◌∷◌}

-- The dynamic types that the code tells apart; `other` is a value of any further type. The
-- numbers of the unsigned types are below 2 ^ 64 (2 ^ 32) in a value that Go can hold.
mutual
  pub data Value : Type 0 where
    null : Value
    bool : Bool → Value
    uint : ℕ → Value
    uint32 : ℕ → Value
    uint64 : ℕ → Value
    int : ℤ → Value
    int32 : ℤ → Value
    int64 : ℤ → Value
    byte_slice : Bytes → Value
    text : Bytes → Value
    int_pair : ℤ → ℤ → Value
    array : Items → Value
    other : ℕ → Value

  -- A []interface{} inside a value.
  pub data Items : Type 0 where
    nil : Items
    cons : Value → Items → Items

pub record Message : Type 0 where
  pub session : ℕ
  pub msg_type : ℕ
  pub payload : List Value
  pub headers : List Value

abbrev pub v1_handshake : ℕ
v1_handshake = 0

abbrev pub v1_heartbeat : ℕ
v1_heartbeat = 0

abbrev pub v1_invoke : ℕ
v1_invoke = 0

abbrev pub v1_write : ℕ
v1_write = 0

abbrev pub v1_error : ℕ
v1_error = 1

abbrev pub v1_close : ℕ
v1_close = 2

abbrev pub v1_terminate : ℕ
v1_terminate = 1

abbrev pub v1_utility_session : ℕ
v1_utility_session = 1

unfoldable pub new_handshake_v1 : Bytes → Message
new_handshake_v1 id = record {
  session = v1_utility_session;
  msg_type = v1_handshake;
  payload = text id ∷ [];
  headers = [];
}

unfoldable pub new_heartbeat_v1 : Message
new_heartbeat_v1 = record {
  session = v1_utility_session;
  msg_type = v1_heartbeat;
  payload = [];
  headers = [];
}

unfoldable pub new_invoke_v1 : ℕ → Bytes → Message
new_invoke_v1 session event = record {
  session = session;
  msg_type = v1_invoke;
  payload = text event ∷ [];
  headers = [];
}

unfoldable pub new_chunk_v1 : ℕ → Bytes → Message
new_chunk_v1 session content = record {
  session = session;
  msg_type = v1_write;
  payload = byte_slice content ∷ [];
  headers = [];
}

unfoldable pub new_error_v1 : ℕ → ℤ → ℤ → Bytes → Message
new_error_v1 session category code message = record {
  session = session;
  msg_type = v1_error;
  payload = int_pair category code ∷ text message ∷ [];
  headers = [];
}

unfoldable pub new_choke_v1 : ℕ → Message
new_choke_v1 session = record { session = session; msg_type = v1_close; payload = []; headers = [] }
