-- ===== src/Worker/Stream/Order.antt =====
-- The queue of a request is first in, first out, and loses nothing.
use cocaine_framework_go.Prelude.{
  ◌≡◌, refl, sym, ap, ◌∙◌, true, List, [], ◌∷◌, ◌++◌, append_assoc, append-nil, arith, ◌≡⟨◌⟩◌, ◌∎,
}
use cocaine_framework_go.Effects.{Outcome, done, panic, blocked, ◌>>=◌}
use cocaine_framework_go.Message.{Message}
use cocaine_framework_go.Worker.Stream.{
  Stream, new_request, StreamEvent, pushes, closes, hands, notices, stream_step, stream_run,
  after_messages,
}

-- The messages that the worker pushes in a history.
abbrev pub pushed : List StreamEvent → List Message
pushed [] = []
pushed (pushes msg ∷ es) = msg ∷ pushed es
pushed (_ ∷ es) = pushed es

abbrev pushed_once : StreamEvent → List Message
pushed_once (pushes msg) = msg ∷ []
pushed_once _ = []

pushed-cons :
    (e : StreamEvent) (es : List StreamEvent) → pushed (e ∷ es) ≡ pushed_once e ++ pushed es
pushed-cons (pushes msg) es = refl
pushed-cons closes es = refl
pushed-cons hands es = refl
pushed-cons notices es = refl

-- What holds between two events.
pub record IsValid (s : Stream) : Type 0 where
  pub ended_empty : s.ended ≡ true → s.pending ≡ []
  pub ended_seen : s.ended ≡ true → s.seen ≡ true
  pub seen_closed : s.seen ≡ true → s.closed ≡ true

pub new_request-IsValid : IsValid new_request
new_request-IsValid = ground arith

stream_step-order :
    (e : StreamEvent) (s t : Stream) (out : List Message)
    → stream_step e s ≡ done (t, out)
    → out ++ t.pending ≡ s.pending ++ pushed_once e
unfolding stream_step
stream_step-order (pushes msg) s t out h = ground arith
stream_step-order closes s t out h = ground (arith, append-nil s.pending)
stream_step-order hands s t out h = ground (arith, append-nil s.pending)
stream_step-order notices s t out h = ground (arith, append-nil s.pending)

pub stream_step-IsValid :
    (e : StreamEvent) (s t : Stream) (out : List Message)
    → stream_step e s ≡ done (t, out)
    → IsValid s
    → IsValid t
unfolding stream_step
stream_step-IsValid e s t out h v = ground arith

-- Inversion of a history that returns.
abbrev pub Splits : StreamEvent → List StreamEvent → Stream → Stream → List Message → Type 0
Splits e es s t out =
    (u : Stream) × (first : List Message) × (later : List Message) × (stream_step e s
      ≡ done (u, first))
    × (stream_run es u ≡ done (t, later))
    × (out ≡ first ++ later)

pub stream_run-cons :
    (e : StreamEvent) (es : List StreamEvent) (s t : Stream) (out : List Message)
    → stream_run (e ∷ es) s ≡ done (t, out)
    → Splits e es s t out
unfolding stream_run
stream_run-cons e es s t out h = first_step (stream_step e s) refl h
  where
    rest :
        (u : Stream) (first : List Message) (m : Outcome (Stream × List Message))
        → stream_step e s ≡ done (u, first)
        → stream_run es u ≡ m
        → after_messages first m ≡ done (t, out)
        → Splits e es s t out
    rest u first (done (t', later)) p q h = (u, first, later, p, q ∙ ground arith, ground arith)
    rest u first (panic x) p q h = cc
    rest u first blocked p q h = cc

    first_step :
        (m : Outcome (Stream × List Message))
        → stream_step e s ≡ m
        → (m >>= λ r. after_messages r.1 (stream_run es r.0)) ≡ done (t, out)
        → Splits e es s t out
    first_step (done (u, first)) p h = rest u first (stream_run es u) p refl h
    first_step (panic x) p h = cc
    first_step blocked p h = cc

stream_run-order :
    (es : List StreamEvent) (s t : Stream) (out : List Message)
    → stream_run es s ≡ done (t, out)
    → out ++ t.pending ≡ s.pending ++ pushed es
unfolding stream_run
stream_run-order [] s t out h = ground (arith, append-nil s.pending)
stream_run-order (e ∷ es) s t out h =
    let (u, first, later, p, q, r) = stream_run-cons e es s t out h in
    out ++ t.pending
    ≡⟨ ap (λ x. x ++ t.pending) r ⟩ (first ++ later) ++ t.pending
    ≡⟨ append_assoc first later t.pending ⟩ first ++ (later ++ t.pending)
    ≡⟨ ap (◌++◌ first) (stream_run-order es u t later q) ⟩ first ++ (u.pending ++ pushed es)
    ≡⟨ sym (append_assoc first u.pending (pushed es)) ⟩ (first ++ u.pending) ++ pushed es
    ≡⟨ ap (λ x. x ++ pushed es) (stream_step-order e s u first p) ⟩
      (s.pending ++ pushed_once e) ++ pushed es
    ≡⟨ append_assoc s.pending (pushed_once e) (pushed es) ⟩
      s.pending ++ (pushed_once e ++ pushed es)
    ≡⟨ ap (◌++◌ s.pending) (sym (pushed-cons e es)) ⟩ s.pending ++ pushed (e ∷ es) ∎

stream_run-IsValid :
    (es : List StreamEvent) (s t : Stream) (out : List Message)
    → stream_run es s ≡ done (t, out)
    → IsValid s
    → IsValid t
unfolding stream_run
stream_run-IsValid [] s t out h v = ground arith
stream_run-IsValid (e ∷ es) s t out h v =
    let (u, first, later, p, q, r) = stream_run-cons e es s t out h in
    stream_run-IsValid es u t later q (stream_step-IsValid e s u first p v)

-- In any history of a new request the messages that the handler has received, followed by those
-- that wait in the queue, are the messages that the worker pushed, in that order.
pub stream_fifo :
    (es : List StreamEvent) (t : Stream) (out : List Message)
    → stream_run es new_request ≡ done (t, out)
    → out ++ t.pending ≡ pushed es
stream_fifo es t out h = stream_run-order es new_request t out h

-- When the handler finds the channel closed, it has received all that was pushed, and the worker
-- has closed the request.
pub stream_complete :
    (es : List StreamEvent) (t : Stream) (out : List Message)
    → stream_run es new_request ≡ done (t, out)
    → t.ended ≡ true
    → (out ≡ pushed es) × (t.closed ≡ true)
stream_complete es t out h e =
    let v = stream_run-IsValid es new_request t out h new_request-IsValid in
    let order = stream_fifo es t out h in
    (
      sym (append-nil out) ∙ ap (◌++◌ out) (sym (v.ended_empty e)) ∙ order,
      v.seen_closed (v.ended_seen e),
    )
