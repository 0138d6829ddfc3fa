-- ===== src/Tests/Contexts.antt =====
-- Trace contexts, endpoints and the flag -locator (cocaine12/trace.go, service.go, locator.go and
-- defaults.go).
use cocaine_framework_go.Prelude.{
  ℕ, ◌≡◌, refl, bytes, List, [], ◌∷◌, Option, none, some, arith, ◌==◌, if◌then◌else◌,
}
use cocaine_framework_go.Errors.{Error, Result, ok, err, eof}
use cocaine_framework_go.Message.Span.{
  Descent, spans, derives, descend, get_trace_info, begin_new_trace_context, spans_keep_trace,
}
use cocaine_framework_go.Service.Connect.{
  Tries, io_of, locator_from, service_create_io, new_locator, connects_in_order,
}
use cocaine_framework_go.Service.Locators.{locators_string, parse_locators, locators_round_trip}

abbrev two_spans : List Descent
two_spans = spans 11 ∷ derives ∷ spans 12 ∷ []

spans_keep_trace_example :
    get_trace_info (descend two_spans (begin_new_trace_context 10 none))
    ≡ some (record { trace = 10; span = 12; parent = 11 })
spans_keep_trace_example = spans_keep_trace 10 11 12 (10 ∷ []) none two_spans refl

-- The third endpoint answers.
abbrev dial : ℕ → Result ℕ
dial e = if e == 3 then ok 42 else err eof

connects_in_order_example :
    (errors : List (ℕ × Error)) × (r : Option ℕ) × Tries dial (1 ∷ 2 ∷ 3 ∷ 4 ∷ []) errors r
    × (service_create_io dial (1 ∷ 2 ∷ 3 ∷ 4 ∷ []) ≡ io_of dial errors r)
    × (new_locator dial [] (1 ∷ 2 ∷ 3 ∷ 4 ∷ []) ≡ locator_from dial none errors r)
connects_in_order_example = connects_in_order dial 1 (2 ∷ 3 ∷ 4 ∷ []) []

locators_round_trip_example :
    (locators_string (parse_locators (bytes "a,b")) ≡ bytes "a,b")
    × (parse_locators (locators_string (bytes "h:1" ∷ bytes "h:2" ∷ []))
        ≡ bytes "h:1" ∷ bytes "h:2" ∷ [])
locators_round_trip_example =
    locators_round_trip (bytes "a,b") (bytes "h:1") (bytes "h:2" ∷ [])
      (omega arith, (omega arith, (omega arith, tt)))
      ((omega arith, (omega arith, (omega arith, tt))), tt)
