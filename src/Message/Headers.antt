-- ===== src/Message/Headers.antt =====
-- What getTraceData makes of other header lists.
use cocaine_framework_go.Prelude.{
  ℕ, suc, ◌+◌, ◌^◌, ◌≤◌, ◌<◌, ◌≡◌, ◌≢◌, refl, put_uint, List, [], ◌∷◌, ◌++◌, Option, none, some,
  length, arith, if◌then◌else◌, ◌==◌, Bool-cases, inl, inr,
}
use cocaine_framework_go.Errors.{Error, err}
use cocaine_framework_go.Message.{Value}
use cocaine_framework_go.Message.Trace.{
  TraceInfo, no_trace, trace_id, trace_header, get_trace, read_header, skipped, failed, counted,
  Round, trace_loop, get_trace_data,
}
use cocaine_framework_go.Message.RoundTrip.{read_header-trace}

read_header-foreign :
    (t : TraceInfo) (h : Value) (e : Error) → get_trace h ≡ err e → read_header t h ≡ skipped
unfolding read_header
read_header-foreign t h e r = rw (r, read_header)

-- One round of the loop, as a function of what `read_header` returns.
abbrev after_round : Round → List Value → ℕ → TraceInfo → TraceInfo × Option Error
after_round skipped hs i t = trace_loop hs i t
after_round (failed t' e) hs i t = (t', some e)
after_round (counted t') hs i t = if suc i == 3 then (t', none) else trace_loop hs (suc i) t'

trace_loop-cons :
    (h : Value) (hs : List Value) (i : ℕ) (t : TraceInfo)
    → trace_loop (h ∷ hs) i t ≡ after_round (read_header t h) hs i t
unfolding trace_loop
trace_loop-cons h hs i t = ground arith

trace_loop-foreign :
    (xs ys : List Value) (h : Value) (e : Error) (i : ℕ) (t : TraceInfo)
    → get_trace h ≡ err e
    → trace_loop (xs ++ h ∷ ys) i t ≡ trace_loop (xs ++ ys) i t
trace_loop-foreign [] ys h e i t r = rw (trace_loop-cons h ys i t, read_header-foreign t h e r)
trace_loop-foreign (x ∷ xs) ys h e i t r =
    rw (trace_loop-cons x (xs ++ h ∷ ys) i t, trace_loop-cons x (xs ++ ys) i t)
      (go (read_header t x) λ (j : ℕ) (u : TraceInfo). trace_loop-foreign xs ys h e j u r)
  where
    go :
        (r : Round)
        → ((j : ℕ) (u : TraceInfo) → trace_loop (xs ++ h ∷ ys) j u ≡ trace_loop (xs ++ ys) j u)
        → after_round r (xs ++ h ∷ ys) i t ≡ after_round r (xs ++ ys) i t
    go skipped ih = ih i t
    go (failed u e) ih = refl
    go (counted u) ih = rw (ih (suc i) u)

-- A header that getTrace refuses, whatever its error, changes nothing, wherever it stands.
pub get_trace_data_skips_foreign :
    (xs ys : List Value) (h : Value) (e : Error)
    → get_trace h ≡ err e
    → get_trace_data (xs ++ h ∷ ys) ≡ get_trace_data (xs ++ ys)
unfolding get_trace_data
get_trace_data_skips_foreign xs ys h e r = trace_loop-foreign xs ys h e 0 no_trace r

trace_loop-short :
    (hs : List Value) (i : ℕ) (t : TraceInfo) → (trace_loop hs i t).1 ≡ none → 3 ≤ i + length hs
unfolding trace_loop
trace_loop-short [] i t e = cc
trace_loop-short (h ∷ hs) i t e =
    go (read_header t h) (λ (j : ℕ) (u : TraceInfo). trace_loop-short hs j u)
      (rw (trace_loop-cons h hs i t) at e)
  where
    go :
        (r : Round)
        → ((j : ℕ) (u : TraceInfo) → (trace_loop hs j u).1 ≡ none → 3 ≤ j + length hs)
        → (after_round r hs i t).1 ≡ none
        → 3 ≤ i + suc (length hs)
    go skipped ih p = omega (arith, ih i t p)
    go (failed u x) ih p = cc
    go (counted u) ih p = elim (Bool-cases (suc i == 3)) [
      | inl last ↦ ground arith
      | inr more ↦ omega (arith, ih (suc i) u (rw more at p))
    ]

-- Fewer than three headers never make a trace.
pub get_trace_data_short : (hs : List Value) → length hs < 3 → (get_trace_data hs).1 ≢ none
unfolding get_trace_data
get_trace_data_short hs h e = omega (arith, trace_loop-short hs 0 no_trace e)

-- Three trace_id headers pass for a whole trace: the span and the parent stay 0, and the error
-- for missing values is not returned.
pub get_trace_data_same_kind :
    (a b c : ℕ) (rest : List Value)
    → a < 2 ^ 64
    → b < 2 ^ 64
    → c < 2 ^ 64
    → get_trace_data (
        trace_header trace_id (put_uint 8 a)
        ∷ trace_header trace_id (put_uint 8 b)
        ∷ trace_header trace_id (put_uint 8 c)
        ∷ rest)
      ≡ (record { trace = c; span = 0; parent = 0 }, none)
unfolding get_trace_data
get_trace_data_same_kind a b c rest ha hb hc =
    rw
      (
        trace_loop-cons,
        read_header-trace no_trace a ha,
        trace_loop-cons,
        read_header-trace (record no_trace { trace = a }) b hb,
        trace_loop-cons,
        read_header-trace (record no_trace { trace = b }) c hc,
      )
      refl
