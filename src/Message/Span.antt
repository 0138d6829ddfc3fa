-- ===== src/Message/Span.antt =====
-- cocaine12/trace.go: trace information in a context. A context is the chain of values attached to
-- it; what a span logs and the time it starts are left out, and its random number is an argument.
use cocaine_framework_go.Prelude.{ℕ, ◌≡◌, refl, ◌∙◌, ap, List, [], ◌∷◌, ◌++◌, Option, none, some}
use cocaine_framework_go.Message.Trace.{TraceInfo}

pub data Context : Type 0 where
  background : Context
  -- traced, with its TraceInfo
  traced : Context → TraceInfo → Context
  -- context.WithValue(ctx, TraceInfoValue, nil)
  cleaned : Context → Context
  -- any other context
  derived : Context → Context

-- GetTraceInfo: Value asks the chain, from the newest context on.
unfoldable pub get_trace_info : Context → Option TraceInfo
get_trace_info background = none
get_trace_info (traced ctx info) = some info
get_trace_info (cleaned ctx) = none
get_trace_info (derived ctx) = get_trace_info ctx

-- `none` is a nil context.
unfoldable pub attach_trace_info : Option Context → TraceInfo → Context
attach_trace_info none info = traced background info
attach_trace_info (some ctx) info = traced ctx info

unfoldable pub begin_new_trace_context : ℕ → Option Context → Context
unfolding attach_trace_info
begin_new_trace_context ts ctx =
    attach_trace_info ctx (record { trace = ts; span = ts; parent = 0 })

unfoldable pub clean_trace_info : Context → Context
clean_trace_info ctx = cleaned ctx

-- The context of a new span.
abbrev pub child : ℕ → TraceInfo → TraceInfo
child number info = record { trace = info.trace; span = number; parent = info.span }

unfoldable pub new_span : ℕ → Option Context → Context
unfolding get_trace_info
new_span number none = background
new_span number (some ctx) = elim (get_trace_info ctx) [
  | none ↦ ctx
  | some info ↦ traced ctx (child number info)
]

-- What happens to a context on the way down the calls: a span, or a value that is no trace.
pub data Descent : Type 0 where
  spans : ℕ → Descent
  derives : Descent

unfoldable pub descend : List Descent → Context → Context
unfolding new_span
descend [] ctx = ctx
descend (spans number ∷ ds) ctx = descend ds (new_span number (some ctx))
descend (derives ∷ ds) ctx = descend ds (derived ctx)

-- The numbers of the spans.
abbrev pub numbers : List Descent → List ℕ
numbers [] = []
numbers (spans number ∷ ds) = number ∷ numbers ds
numbers (derives ∷ ds) = numbers ds

-- The trace information after spans with these numbers.
abbrev pub after_spans : TraceInfo → List ℕ → TraceInfo
after_spans info [] = info
after_spans info (n ∷ ns) = after_spans (child n info) ns

descend-info :
    (ds : List Descent) (ctx : Context) (info : TraceInfo)
    → get_trace_info ctx ≡ some info
    → get_trace_info (descend ds ctx) ≡ some (after_spans info (numbers ds))
unfolding descend get_trace_info new_span
descend-info [] ctx info e = e
descend-info (spans n ∷ ds) ctx info e =
    descend-info ds (new_span n (some ctx)) (child n info) (rw (e, new_span) refl)
descend-info (derives ∷ ds) ctx info e = descend-info ds (derived ctx) info e

after_spans-last :
    (ns : List ℕ) (m n : ℕ) (info : TraceInfo)
    → after_spans info (ns ++ m ∷ n ∷ []) ≡ record { trace = info.trace; span = n; parent = m }
after_spans-last [] m n info = refl
after_spans-last (k ∷ ns) m n info = after_spans-last ns m n (child k info)

begins :
    (ts : ℕ) (ctx : Option Context)
    → get_trace_info (begin_new_trace_context ts ctx)
      ≡ some (record { trace = ts; span = ts; parent = 0 })
unfolding begin_new_trace_context attach_trace_info get_trace_info
begins ts none = refl
begins ts (some ctx) = refl

-- Down from a new trace, through any spans and other contexts, the trace information keeps the
-- number of the trace; its span is the number of the last span, and its parent the number of the
-- one before it.
pub spans_keep_trace :
    (ts m n : ℕ) (ns : List ℕ) (ctx : Option Context) (ds : List Descent)
    → ts ∷ numbers ds ≡ ns ++ m ∷ n ∷ []
    → get_trace_info (descend ds (begin_new_trace_context ts ctx))
      ≡ some (record { trace = ts; span = n; parent = m })
spans_keep_trace ts m n ns ctx ds e =
    let root : TraceInfo = record { trace = ts; span = 0; parent = 0 } in
    descend-info ds (begin_new_trace_context ts ctx) (child ts root) (begins ts ctx)
    ∙ ap (λ l. some (after_spans root l)) e
    ∙ ap some (after_spans-last ns m n root)
