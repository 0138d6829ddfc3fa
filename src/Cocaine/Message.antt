-- ===== src/Cocaine/Message.antt =====
-- cocaine/message.go: the messages, their payloads and their unpackers. The package uuid is the
-- parameter Uuids.
pub mod Feed
pub mod Pieces
pub mod RoundTrip
pub mod Stream
use cocaine_framework_go.Prelude.{
  ℕ, Bytes, ℤ, pos, negsuc, to_int64, List, [], ◌∷◌, Option, none, some, get_elem?,
}
use cocaine_framework_go.Prelude.Maps.{lookup}
use cocaine_framework_go.Effects.{
  Outcome, done, panic, ◌>>=◌, index_out_of_range, nil_dereference, type_assertion,
}
use cocaine_framework_go.Errors.{Error, Result, ok, err}
use cocaine_framework_go.Message.{
  Value, int, int64, uint64, byte_slice, text, array, Items, nil, cons,
}

abbrev pub type_handshake : ℤ
type_handshake = pos 0

abbrev pub type_heartbeat : ℤ
type_heartbeat = pos 1

abbrev pub type_terminate : ℤ
type_terminate = pos 2

abbrev pub type_invoke : ℤ
type_invoke = pos 3

abbrev pub type_chunk : ℤ
type_chunk = pos 4

abbrev pub type_error : ℤ
type_error = pos 5

abbrev pub type_choke : ℤ
type_choke = pos 6

pub record MessageInfo : Type 0 where
  pub number : ℤ
  pub channel : ℤ

-- A UUID is its bytes.
pub data MessageInterface : Type 0 where
  handshake_struct : MessageInfo → Bytes → MessageInterface
  heartbeat : MessageInfo → MessageInterface
  -- the reason and the message
  terminate_struct : MessageInfo → Bytes → Bytes → MessageInterface
  invoke : MessageInfo → Bytes → MessageInterface
  chunk : MessageInfo → Bytes → MessageInterface
  -- the code and the message
  error_msg : MessageInfo → ℤ → Bytes → MessageInterface
  choke : MessageInfo → MessageInterface
  service_method : MessageInfo → List Value → MessageInterface

-- uuid.FromString and UUID.String.
pub record Uuids : Type 0 where
  pub from_string : Bytes → Result Bytes
  pub to_string : Bytes → Bytes

unfoldable pub message_info : MessageInterface → MessageInfo
message_info (handshake_struct i u) = i
message_info (heartbeat i) = i
message_info (terminate_struct i r m) = i
message_info (invoke i e) = i
message_info (chunk i d) = i
message_info (error_msg i c m) = i
message_info (choke i) = i
message_info (service_method i d) = i

abbrev pub get_type_id : MessageInterface → ℤ
unfolding message_info
get_type_id msg = (message_info msg).number

abbrev pub get_session_id : MessageInterface → ℤ
unfolding message_info
get_session_id msg = (message_info msg).channel

unfoldable pub get_payload : Uuids → MessageInterface → List Value
get_payload us (handshake_struct i u) = text (us.to_string u) ∷ []
get_payload us (heartbeat i) = []
get_payload us (terminate_struct i reason message) = text reason ∷ text message ∷ []
get_payload us (invoke i event) = text event ∷ []
get_payload us (chunk i content) = byte_slice content ∷ []
get_payload us (error_msg i code message) = int code ∷ text message ∷ []
get_payload us (choke i) = []
get_payload us (service_method i content) = content

abbrev pub to_items : List Value → Items
to_items [] = nil
to_items (v ∷ vs) = cons v (to_items vs)

abbrev pub from_items : Items → List Value
from_items nil = []
from_items (cons v vs) = v ∷ from_items vs

-- What packMsg gives to the encoder.
unfoldable pub pack_items : Uuids → MessageInterface → List Value
pack_items us msg =
    int64 (get_type_id msg)
    ∷ int64 (get_session_id msg)
    ∷ array (to_items (get_payload us msg))
    ∷ []

-- xs[i], which panics out of range.
abbrev pub index {ℓ} : {A : Type ℓ} → List A → ℕ → Outcome A
index xs i = elim (get_elem? xs i) [ none ↦ panic index_out_of_range | some x ↦ done x ]

-- A []byte, or the zero value of what the value should be.
abbrev bytes_or_empty : Value → Bytes
bytes_or_empty (byte_slice b) = b
bytes_or_empty _ = []

abbrev zero_uuid : Bytes
zero_uuid = 0 ∷ 0 ∷ 0 ∷ 0 ∷ 0 ∷ 0 ∷ 0 ∷ 0 ∷ 0 ∷ 0 ∷ 0 ∷ 0 ∷ 0 ∷ 0 ∷ 0 ∷ 0 ∷ []

abbrev pub info : ℤ → ℤ → MessageInfo
info number channel = record { number = number; channel = channel }

unfoldable pub unpack_handshake : Uuids → ℤ → List Value → Outcome (Result MessageInterface)
unpack_handshake us session content = index content 0 >>= λ v. elim v [
  | byte_slice b ↦ elim (us.from_string b) [
    | ok u ↦ done (ok (handshake_struct (info type_handshake session) u))
    | err e ↦ done (err e)
  ]
  | _ ↦ done (ok (handshake_struct (info type_handshake session) zero_uuid))
]

unfoldable pub unpack_heartbeat : ℤ → List Value → Outcome (Result MessageInterface)
unpack_heartbeat session content = done (ok (heartbeat (info type_heartbeat session)))

unfoldable pub unpack_terminate : ℤ → List Value → Outcome (Result MessageInterface)
unpack_terminate session content = index content 0 >>= λ reason. index content 1 >>= λ message.
    done (
      ok (
        terminate_struct (info type_terminate session) (bytes_or_empty reason)
          (bytes_or_empty message)))

unfoldable pub unpack_invoke : ℤ → List Value → Outcome (Result MessageInterface)
unpack_invoke session content = index content 0 >>= λ event.
    done (ok (invoke (info type_invoke session) (bytes_or_empty event)))

unfoldable pub unpack_chunk : ℤ → List Value → Outcome (Result MessageInterface)
unpack_chunk session content = index content 0 >>= λ v. elim v [
  | byte_slice b ↦ done (ok (chunk (info type_chunk session) b))
  | _ ↦ panic type_assertion
]

-- The two switches of unpackErrorMsg.
unfoldable pub error_code : Value → ℤ
error_code (uint64 n) = to_int64 n
error_code (int64 i) = i
error_code _ = pos 0

unfoldable pub error_text : Value → Bytes
error_text (byte_slice b) = b
error_text (text s) = s
error_text _ = []

unfoldable pub unpack_error_msg : ℤ → List Value → Outcome (Result MessageInterface)
unfolding error_code error_text
unpack_error_msg session content = index content 0 >>= λ code. index content 1 >>= λ message.
    done (ok (error_msg (info type_error session) (error_code code) (error_text message)))

unfoldable pub unpack_choke : ℤ → List Value → Outcome (Result MessageInterface)
unpack_choke session content = done (ok (choke (info type_choke session)))

unfoldable pub unpackers : Uuids → ℤ → Option (ℤ → List Value → Outcome (Result MessageInterface))
unpackers us (pos n) = lookup n (
    (0, unpack_handshake us)
    ∷ (1, unpack_heartbeat)
    ∷ (2, unpack_terminate)
    ∷ (3, unpack_invoke)
    ∷ (4, unpack_chunk)
    ∷ (5, unpack_error_msg)
    ∷ (6, unpack_choke)
    ∷ [])
unpackers us (negsuc n) = none

-- The switch on input[1].
unfoldable pub session_of : Value → ℤ
session_of (uint64 n) = to_int64 n
session_of (int64 i) = i
session_of _ = pos 0

-- v.(int64) and v.([]interface{})
abbrev as_int64 : Value → Outcome ℤ
as_int64 (int64 i) = done i
as_int64 _ = panic type_assertion

abbrev as_array : Value → Outcome (List Value)
as_array (array vs) = done (from_items vs)
as_array _ = panic type_assertion

-- A type without an unpacker sets the error, and then calls a nil function.
unfoldable pub unpack_message : Uuids → List Value → Outcome (Result MessageInterface)
unfolding unpackers session_of
unpack_message us input = index input 1 >>= λ s. index input 0 >>= λ t. as_int64 t >>= λ number.
    index input 2 >>= λ d. as_array d >>= λ content. elim (unpackers us number) [
      | none ↦ panic nil_dereference
      | some unpacker ↦ unpacker (session_of s) content
    ]
