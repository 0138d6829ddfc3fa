-- ===== src/Http/Handler/Answers.antt =====
-- What a client gets on every way through WrapHandler.
use cocaine_framework_go.Prelude.{
  ℕ, ◌≡◌, refl, Bytes, bytes, ℤ, List, [], ◌∷◌, ◌++◌, map, Option, none, some,
}
use cocaine_framework_go.Errors.{Error, Result, ok, err}
use cocaine_framework_go.Effects.{Outcome, done}
use cocaine_framework_go.Message.{new_chunk_v1, new_choke_v1}
use cocaine_framework_go.Worker.Response.{Act, serve}
use cocaine_framework_go.Worker.Response.Terminal.{serve_ends_once}
use cocaine_framework_go.Http.Header.{headers_http_to_cocaine}
use cocaine_framework_go.Http.Handler.{
  HttpAct, serve_http, answers, status_request_timeout, status_bad_request, wrap_handler,
}
use cocaine_framework_go.Http.Handler.Shape.{parts}
use cocaine_framework_go.Http.Handler.Sent.{started, first_status, first_headers}
use cocaine_framework_go.Http.Handler.Serve.{serve_http_answers}

module _ {ℓ} {R : Type ℓ} (write_head : ℤ → List (Bytes × Bytes) → Bytes)
    (unpack : Bytes → Result R) (error_text : Error → Bytes) where
  -- The head of a handler's response.
  abbrev pub handler_head : List HttpAct → Bytes
  handler_head script = write_head (first_status script) (
      headers_http_to_cocaine
        (started (first_status script) (first_headers script [])).handler_header)

  -- The head that each way promises: 408 for a request that did not come in time, 400 for one that
  -- could not be read or unpacked, and otherwise the handler's.
  abbrev pub unpacked_head : (R → List HttpAct) → Result R → Bytes
  unpacked_head handler (err e) = write_head status_bad_request []
  unpacked_head handler (ok req) = handler_head (handler req)

  abbrev pub promised_head : (R → List HttpAct) → Result Bytes → Option Error → Bytes
  promised_head handler (err e) (some timeout) = write_head status_request_timeout []
  promised_head handler (err e) none = write_head status_bad_request []
  promised_head handler (ok raw) ctx_err = unpacked_head handler (unpack raw)

  -- A response: its head, a body, and the end of the stream.
  abbrev pub Answers : Outcome (List Act) → Bytes → Bytes → Bytes → ℕ → Type 0
  Answers m head event stack session =
      (acts : List Act) × (body : List Bytes) × (m ≡ done acts)
      × (serve event acts none stack session
          ≡ new_chunk_v1 session head
            ∷ (map (new_chunk_v1 session) body ++ new_choke_v1 session ∷ []))

  error-Answers :
      (code : ℤ) (text event stack : Bytes) (session : ℕ)
      → Answers (done (answers write_head code text)) (write_head code []) event stack session
  error-Answers code text event stack session = (
    answers write_head code text,
    text ∷ [],
    refl,
    serve_ends_once event (answers write_head code text) none stack session,
  )

  -- However the request is received, WrapHandler returns if the handler does, and the client gets
  -- one head, a body and the end of the stream: the head is that of the handler's response, or 408
  -- or 400 if the request is late or cannot be read or unpacked.
  pub wrap_handler-Answers :
      (handler : R → List HttpAct) (received : Result Bytes) (ctx_err : Option Error)
      (event stack : Bytes) (session : ℕ)
      → Answers
          (wrap_handler write_head unpack error_text handler received ctx_err)
          (promised_head handler received ctx_err)
          event
          stack
          session
  unfolding wrap_handler
  wrap_handler-Answers handler (err e) (some timeout) event stack session =
      error-Answers status_request_timeout _ event stack session
  wrap_handler-Answers handler (err e) none event stack session =
      error-Answers status_bad_request _ event stack session
  wrap_handler-Answers handler (ok raw) ctx_err event stack session = by_unpack (unpack raw)
    where
      by_unpack :
          (r : Result R)
          → Answers
              (elim r [
                | err e ↦ done (answers write_head status_bad_request (bytes "malformed request"))
                | ok req ↦ serve_http write_head (handler req)
              ])
              (unpacked_head handler r)
              event
              stack
              session
      by_unpack (err e) = error-Answers status_bad_request _ event stack session
      by_unpack (ok req) =
          let (acts, body, p, q, x, y) =
            serve_http_answers write_head (handler req) event stack session in
          (acts, parts body, p, q)
