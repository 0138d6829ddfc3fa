-- ===== src/Message/RoundTrip.antt =====
-- The trace headers that a client attaches are those that a worker reads.
use cocaine_framework_go.Prelude.{
  ℕ, ◌^◌, ◌<◌, ◌≡◌, refl, put_uint, length-put_uint, get_uint-put_uint, append-nil, List, [], ◌∷◌,
  ◌++◌, none, drop, length,
}
use cocaine_framework_go.Message.{Value}
use cocaine_framework_go.Message.Trace.{
  TraceInfo, no_trace, trace_id, span_id, parent_id, trace_header, decode_tracing_id, read_header,
  counted, trace_loop, get_trace_data, trace_info_to_headers,
}

-- Eight little-endian bytes decode to the number they were made from.
pub decode_tracing_id-put_uint : (n : ℕ) → n < 2 ^ 64 → decode_tracing_id (put_uint 8 n) ≡ (n, none)
unfolding decode_tracing_id
decode_tracing_id-put_uint n h =
    rw (length-put_uint 8 n, ← append-nil (put_uint 8 n), get_uint-put_uint 8 n [] h)

drop-length {ℓ} : {A : Type ℓ} (xs ys : List A) → drop (length xs) (xs ++ ys) ≡ ys
drop-length [] ys = refl
drop-length (x ∷ xs) ys = drop-length xs ys

module _ (t : TraceInfo) (n : ℕ) (h : n < 2 ^ 64) where
  pub read_header-trace :
      read_header t (trace_header trace_id (put_uint 8 n)) ≡ counted (record t { trace = n })
  unfolding read_header
  read_header-trace = rw (decode_tracing_id-put_uint n h)

  pub read_header-span :
      read_header t (trace_header span_id (put_uint 8 n)) ≡ counted (record t { span = n })
  unfolding read_header
  read_header-span = rw (decode_tracing_id-put_uint n h)

  pub read_header-parent :
      read_header t (trace_header parent_id (put_uint 8 n)) ≡ counted (record t { parent = n })
  unfolding read_header
  read_header-parent = rw (decode_tracing_id-put_uint n h)

-- The three windows of the buffer hold one number each.
pub trace_info_to_headers_lem :
    (info : TraceInfo)
    → (trace_info_to_headers info).0
      ≡ trace_header trace_id (put_uint 8 info.trace)
        ∷ trace_header span_id (put_uint 8 info.span)
        ∷ trace_header parent_id (put_uint 8 info.parent)
        ∷ []
unfolding trace_info_to_headers
trace_info_to_headers_lem info = simp drop-length

-- A worker that reads the headers a client made from a trace finds the same trace, whatever
-- headers follow, if the three numbers are uint64 values.
pub get_trace_data-trace_info_to_headers :
    (info : TraceInfo) (rest : List Value)
    → info.trace < 2 ^ 64
    → info.span < 2 ^ 64
    → info.parent < 2 ^ 64
    → get_trace_data ((trace_info_to_headers info).0 ++ rest) ≡ (info, none)
unfolding get_trace_data
get_trace_data-trace_info_to_headers info rest ht hs hp =
    rw
      (
        trace_info_to_headers_lem info,
        read_header-trace no_trace info.trace ht,
        trace_loop,
        read_header-span (record no_trace { trace = info.trace }) info.span hs,
        trace_loop,
        read_header-parent (record no_trace { trace = info.trace; span = info.span }) info.parent
            hp,
        trace_loop,
      )
      refl
