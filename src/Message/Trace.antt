-- ===== src/Message/Trace.antt =====
-- cocaine12/protocol.go: trace headers. The logger of a TraceInfo is left out: no function here
-- reads or sets it.
use cocaine_framework_go.Prelude.{
  ℕ, suc, ◌==◌, ltb, if◌then◌else◌, to_uint64, Bytes, bytes, bytes_eq, put_uint, get_uint, false,
  ◌||◌, List, [], ◌∷◌, ◌++◌, Option, none, some, length, drop, pos,
}
use cocaine_framework_go.Errors.{
  Error, Result, ok, err, invalid_header_length, invalid_header_type, invalid_trace_type,
  invalid_trace_number, invalid_trace_value_type, not_all_traces_present, eof, unexpected_eof,
}
use cocaine_framework_go.Message.{
  Value, uint, uint32, uint64, int, int32, int64, byte_slice, text, array, bool, Items, nil, cons,
}

abbrev pub trace_id : ℕ
trace_id = 80

abbrev pub span_id : ℕ
span_id = 81

abbrev pub parent_id : ℕ
parent_id = 82

pub record TraceInfo : Type 0 where
  pub trace : ℕ
  pub span : ℕ
  pub parent : ℕ

abbrev pub no_trace : TraceInfo
no_trace = record { trace = 0; span = 0; parent = 0 }

pub decode_raw_trace_name : Bytes → Result ℕ
decode_raw_trace_name name =
    if bytes_eq name (bytes "trace_id")
    then ok trace_id
    else if bytes_eq name (bytes "span_id")
    then ok span_id
    else if bytes_eq name (bytes "parent_id")
    then ok parent_id
    else err invalid_trace_type

-- The switch on t[1].
pub trace_number : Value → Result ℕ
unfolding decode_raw_trace_name
trace_number (uint n) = ok n
trace_number (uint32 n) = ok n
trace_number (uint64 n) = ok n
trace_number (int i) = ok (to_uint64 i)
trace_number (int32 i) = ok (to_uint64 i)
trace_number (int64 i) = ok (to_uint64 i)
trace_number (byte_slice name) = decode_raw_trace_name name
trace_number _ = err invalid_trace_type

-- The test on traceValueMap and the switch on t[2].
pub trace_value : ℕ → Value → Result (ℕ × Option Bytes)
trace_value num val =
    if num == trace_id || (num == span_id || num == parent_id)
    then elim val [
      | byte_slice b ↦ ok (num, some b)
      | text s ↦ ok (num, some s)
      | _ ↦ err invalid_trace_value_type
    ]
    else err invalid_trace_number

pub tuple_trace : Items → Result (ℕ × Option Bytes)
unfolding trace_number trace_value
tuple_trace (cons first (cons num (cons val nil))) = elim (trace_number num) [
  | ok n ↦ trace_value n val
  | err e ↦ err e
]
tuple_trace _ = err invalid_header_length

-- `none` in the second place of a result is a nil []byte.
unfoldable pub get_trace : Value → Result (ℕ × Option Bytes)
unfolding tuple_trace
get_trace (uint n) = ok (n, none)
get_trace (uint32 n) = ok (n, none)
get_trace (uint64 n) = ok (n, none)
get_trace (int i) = ok (to_uint64 i, none)
get_trace (int32 i) = ok (to_uint64 i, none)
get_trace (int64 i) = ok (to_uint64 i, none)
get_trace (array t) = tuple_trace t
get_trace _ = err invalid_header_type

-- binary.Read of a uint64: the first eight bytes, and its errors if there are fewer.
unfoldable pub decode_tracing_id : Bytes → ℕ × Option Error
decode_tracing_id b =
    if ltb (length b) 8
    then (0, some (if length b == 0 then eof else unexpected_eof))
    else (get_uint 8 b, none)

-- A nil []byte has no bytes.
abbrev pub buffer_bytes : Option Bytes → Bytes
buffer_bytes none = []
buffer_bytes (some b) = b

-- What one round of the loop of getTraceData does: it continues without counting the header,
-- returns with an error, or counts the header.
pub data Round : Type 0 where
  skipped : Round
  failed : TraceInfo → Error → Round
  counted : TraceInfo → Round

-- `field, err = decodeTracingId(buffer)`, and the return on an error.
abbrev assigned : (ℕ → TraceInfo) → ℕ × Option Error → Round
assigned put (n, none) = counted (put n)
assigned put (n, some e) = failed (put n) e

pub assign_trace : TraceInfo → ℕ → Option Bytes → Round
unfolding decode_tracing_id
assign_trace t number buffer =
    if number == trace_id
    then assigned (λ n. record t { trace = n }) (decode_tracing_id (buffer_bytes buffer))
    else if number == span_id
    then assigned (λ n. record t { span = n }) (decode_tracing_id (buffer_bytes buffer))
    else if number == parent_id
    then elim buffer [
      | none ↦ counted (record t { parent = 0 })
      | some b ↦ assigned (λ n. record t { parent = n }) (decode_tracing_id b)
    ]
    else skipped

unfoldable pub read_header : TraceInfo → Value → Round
unfolding get_trace assign_trace
read_header t header = elim (get_trace header) [
  | err _ ↦ skipped
  | ok (number, buffer) ↦ assign_trace t number buffer
]

unfoldable pub trace_loop : List Value → ℕ → TraceInfo → TraceInfo × Option Error
trace_loop [] i t = (t, some not_all_traces_present)
trace_loop (header ∷ hs) i t = elim (read_header t header) [
  | skipped ↦ trace_loop hs i t
  | failed t' e ↦ (t', some e)
  | counted t' ↦ let rest = trace_loop hs (suc i) t' in if suc i == 3 then (t', none) else rest
]

unfoldable pub get_trace_data : List Value → TraceInfo × Option Error
unfolding trace_loop
get_trace_data hs = trace_loop hs 0 no_trace

-- []interface{}{false, id, value}
abbrev pub trace_header : ℕ → Bytes → Value
trace_header id value =
    array (cons (bool false) (cons (int (pos id)) (cons (byte_slice value) nil)))

-- The three slices are windows of one buffer, cut at the length before each write; a write to a
-- bytes.Buffer does not fail.
unfoldable pub trace_info_to_headers : TraceInfo → List Value × Option Error
trace_info_to_headers info =
    let buff1 : Bytes = put_uint 8 info.trace in
    let buff2 : Bytes = buff1 ++ put_uint 8 info.span in
    let buff3 : Bytes = buff2 ++ put_uint 8 info.parent in
    (
      trace_header trace_id (drop 0 buff1)
          ∷ trace_header span_id (drop (length buff1) buff2)
          ∷ trace_header parent_id (drop (length buff2) buff3)
          ∷ [],
      none,
    )
