-- ===== src/Tests/Messages.antt =====
-- Trace headers (cocaine12/protocol.go).
use cocaine_framework_go.Prelude.{◌≡◌, refl, false, bytes, [], ◌∷◌, ◌++◌, none, some, arith}
use cocaine_framework_go.Errors.{ok, err, invalid_trace_number}
use cocaine_framework_go.Message.{uint64, text, byte_slice, bool, array, cons, nil}
use cocaine_framework_go.Message.Trace.{TraceInfo, get_trace, get_trace_data, trace_info_to_headers}
use cocaine_framework_go.Message.RoundTrip.{get_trace_data-trace_info_to_headers}

abbrev sample : TraceInfo
sample = record { trace = 100; span = 0x1122334455667788; parent = 7 }

-- The name of a number may be spelled out, and the value may be a string.
named_header :
    get_trace (
      array (cons (bool false) (cons (byte_slice (bytes "span_id")) (cons (text (bytes "x")) nil))))
    ≡ ok (81, some (bytes "x"))
unfolding get_trace
named_header = refl

unknown_number :
    get_trace (array (cons (bool false) (cons (uint64 79) (cons (text (bytes "x")) nil))))
    ≡ err invalid_trace_number
unfolding get_trace
unknown_number = refl

get_trace_data-trace_info_to_headers_example :
    get_trace_data ((trace_info_to_headers sample).0 ++ text (bytes "x") ∷ []) ≡ (sample, none)
get_trace_data-trace_info_to_headers_example =
    get_trace_data-trace_info_to_headers sample (text (bytes "x") ∷ []) (omega arith) (omega arith)
      (omega arith)
