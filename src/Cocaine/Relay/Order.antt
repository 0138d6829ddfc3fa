-- ===== src/Cocaine/Relay/Order.antt =====
-- cocaine/worker.go: what reaches the worker of what a handler gave to its response.
use cocaine_framework_go.Prelude.{
  ◌≡◌, sym, ap, subst, ◌∙◌, true, List, [], ◌∷◌, ◌++◌, ℤ, Bytes, append_assoc, append-nil, arith,
}
use cocaine_framework_go.Effects.{done, blocked, >>=-eq-done}
use cocaine_framework_go.Cocaine.Relay.{
  Relay, relay_round, request_push, request_close, relay_take, Response, new_response, ResponseOp,
  gives, quits, response_op, ResponseEvent, does, worker_takes, response_step, response_run,
}

-- What the handler gave, and whether it quit.
abbrev given_once : ResponseEvent → List Bytes
given_once (does (gives packed)) = packed ∷ []
given_once _ = []

abbrev pub given : List ResponseEvent → List Bytes
given [] = []
given (e ∷ es) = given_once e ++ given es

abbrev all_of : Response × List Bytes → List Bytes
all_of (r, got) = got ++ r.relay.pending

response_op-given :
    (op : ResponseOp) (r t : Response)
    → response_op op r ≡ done t
    → t.relay.pending ≡ r.relay.pending ++ given_once (does op)
unfolding response_op request_push request_close relay_round
response_op-given (gives packed) r t p = ground arith
response_op-given quits r t p =
    let same : t.relay.pending ≡ r.relay.pending = ground arith in
    same ∙ sym (append-nil r.relay.pending)

relay_take-pending :
    (r t : Relay) (first : List Bytes)
    → relay_take r ≡ done (t, first)
    → r.pending ≡ first ++ t.pending
unfolding relay_take relay_round
relay_take-pending r t first p = ground arith

response_step-all_of :
    (e : ResponseEvent) (s t : Response × List Bytes)
    → response_step e s ≡ done t
    → all_of t ≡ all_of s ++ given_once e
unfolding response_step
response_step-all_of (does op) (r, got) t p =
    let (r', q, q') = >>=-eq-done (response_op op r) _ p in
    let same : (r', got) ≡ t = ground arith in
    subst (λ x. all_of x ≡ all_of (r, got) ++ given_once (does op)) same
      (ap (λ l. got ++ l) (response_op-given op r r' q)
        ∙ sym (append_assoc got r.relay.pending (given_once (does op))))
response_step-all_of worker_takes (r, got) t p =
    let ((relay, first), q, q') = >>=-eq-done (relay_take r.relay) _ p in
    let same : (record r { relay = relay }, got ++ first) ≡ t = ground arith in
    subst (λ x. all_of x ≡ all_of (r, got) ++ []) same
      (append_assoc got first relay.pending
        ∙ ap (λ l. got ++ l) (sym (relay_take-pending r.relay relay first q))
        ∙ sym (append-nil (got ++ r.relay.pending)))

-- The goroutine ends only after a quit, with nothing left.
abbrev DrainsFirst : Relay → Type 0
DrainsFirst r = r.ended ≡ true → (r.pending ≡ []) × (r.quit ≡ true)

response_step-DrainsFirst :
    (e : ResponseEvent) (s t : Response × List Bytes)
    → response_step e s ≡ done t
    → DrainsFirst s.0.relay
    → DrainsFirst t.0.relay
unfolding response_step response_op request_push request_close relay_take relay_round
response_step-DrainsFirst (does (gives packed)) s t p d = ground arith
response_step-DrainsFirst (does quits) s t p d = ground arith
response_step-DrainsFirst worker_takes s t p d = ground arith

-- A send that finds no goroutine waits for ever.
response_step-ended :
    (op : ResponseOp) (s : Response × List Bytes)
    → s.0.relay.ended ≡ true
    → response_step (does op) s ≡ blocked
unfolding response_step response_op request_push request_close
response_step-ended (gives packed) s e = ground arith
response_step-ended quits s e = ground arith

record Ran (es : List ResponseEvent) (s t : Response × List Bytes) : Type 0 where
  all_kept : all_of t ≡ all_of s ++ given es
  drains : DrainsFirst s.0.relay → DrainsFirst t.0.relay

response_run-Ran :
    (es : List ResponseEvent) (s t : Response × List Bytes)
    → response_run es s ≡ done t
    → Ran es s t
unfolding response_run
response_run-Ran [] s t p =
    let same : s ≡ t = ground arith in
    subst (Ran [] s) same (record { all_kept = sym (append-nil (all_of s)); drains = λ d. d })
response_run-Ran (e ∷ es) s t p =
    let (u, q, r) = >>=-eq-done (response_step e s) (response_run es) p in
    let h = response_run-Ran es u t r in
    record {
      all_kept =
          h.all_kept
          ∙ ap (λ x. x ++ given es) (response_step-all_of e s u q)
          ∙ append_assoc (all_of s) (given_once e) (given es);
      drains = λ d. h.drains (response_step-DrainsFirst e s u q d);
    }

-- In every interleaving of a handler and the worker, what the worker has received from a new
-- response and what still waits are the messages that the handler gave it, in order; once the
-- goroutine of the response has ended, the worker has received all of them, and whatever the
-- handler then sends waits for ever.
pub response_complete :
    (session : ℤ) (es : List ResponseEvent) (r : Response) (got : List Bytes)
    → response_run es (new_response session, []) ≡ done (r, got)
    → (got ++ r.relay.pending ≡ given es)
      × (r.relay.ended ≡ true
          → (got ≡ given es) × ((op : ResponseOp) → response_step (does op) (r, got) ≡ blocked))
response_complete session es r got p =
    let h = response_run-Ran es (new_response session, []) (r, got) p in
    (
      h.all_kept,
      λ ended.
          let (empty, quit) = (h.drains (ground arith)) ended in
          (
            sym (append-nil got) ∙ ap (λ l. got ++ l) (sym empty) ∙ h.all_kept,
            λ op. response_step-ended op (r, got) ended,
          ),
    )
