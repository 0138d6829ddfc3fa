-- ===== src/Bridge.antt =====
-- cocaine12/bridge/bridge.go: the arguments of the child process and the fallback handler, which
-- passes requests on to the child. UnpackProxyRequest, the request to the child (http.DefaultClient)
-- and the texts of errors are parameters; processes and signals are left out.
use cocaine_framework_go.Prelude.{
  ℕ, ◌≡◌, ◌≢◌, refl, sym, ap, ap₂, ◌∙◌, if◌then◌else◌, Bytes, bytes, bytes_eq, bytes_eq_sound, ℤ,
  pos, List, [], ◌∷◌, ◌++◌, map, drop, length, Option, none, some, All, Bool-cases, inl, inr,
  append_assoc, append-nil,
}
use cocaine_framework_go.Errors.{Error, Result, ok, err}
use cocaine_framework_go.Message.{Message, new_chunk_v1, new_choke_v1}
use cocaine_framework_go.Worker.Response.{Act, writes, closes, serve}
use cocaine_framework_go.Worker.Response.Terminal.{
  written, chosen_ending, ending_message, default_ending, serve_ends_once,
}
use cocaine_framework_go.Http.Header.{Header, headers_http_to_cocaine}
use cocaine_framework_go.Http.Handler.{answers, status_request_timeout, status_bad_request}

abbrev pub endpoint_flag : Bytes
endpoint_flag = bytes "--endpoint"

-- The loop of filterEndpointArg, past the arguments `before`: what it returns, and what the array of
-- its argument holds afterwards, since append writes into that array.
unfoldable pub filter_loop : List Bytes → List Bytes → List Bytes × List Bytes
filter_loop before [] = (before, before)
filter_loop before (arg ∷ []) = (before ++ arg ∷ [], before ++ arg ∷ [])
filter_loop before (arg ∷ value ∷ rest) =
    let next = filter_loop (before ++ arg ∷ []) (value ∷ rest) in
    if bytes_eq arg endpoint_flag
    then (before ++ rest, (before ++ rest) ++ drop (length rest) (arg ∷ value ∷ rest))
    else next

unfoldable pub filter_endpoint_arg : List Bytes → List Bytes × List Bytes
unfolding filter_loop
filter_endpoint_arg args = filter_loop [] args

-- The answer of the child, with the pieces of its body that io.Copy reads, up to its end or an error.
pub record AppResponse : Type 0 where
  pub status_code : ℤ
  pub header : Header
  pub body : List Bytes

abbrev pub status_internal_server_error : ℤ
status_internal_server_error = pos 500

-- responseWriter.Write, for each piece.
abbrev pub copies : List Bytes → List Act
copies [] = []
copies (piece ∷ pieces) = writes piece ∷ copies pieces

module _ {ℓ} {R : Type ℓ} (write_head : ℤ → List (Bytes × Bytes) → Bytes)
    (unpack : Bytes → Result R) (at_endpoint : Bytes → R → R) (request_app : R → Result AppResponse)
    (error_text : Error → Bytes) where
  -- The end of the handler, and the deferred Close of the response.
  abbrev pub pass_answer : Result AppResponse → List Act
  pass_answer (err e) =
      answers write_head status_internal_server_error
        (bytes "unable to proxy a request: " ++ error_text e)
  pass_answer (ok resp) =
      writes (write_head resp.status_code (headers_http_to_cocaine resp.header))
      ∷ (copies resp.body ++ closes ∷ [])

  abbrev pub pass_request : Bytes → Result R → List Act
  pass_request endpoint (err e) =
      answers write_head status_bad_request (bytes "malformed request: " ++ error_text e)
  pass_request endpoint (ok request) = pass_answer (request_app (at_endpoint endpoint request))

  -- The fallback handler of NewBridge. `received` is how request.Read ends, `ctx_err` is ctx.Err().
  unfoldable pub bridge_handler : Bytes → Result Bytes → Option Error → List Act
  bridge_handler endpoint (err e) (some timeout) =
      answers write_head status_request_timeout (bytes "request was not received during a timeout")
  bridge_handler endpoint (err e) none =
      answers write_head status_bad_request (bytes "cannot process request " ++ error_text e)
  bridge_handler endpoint (ok msg) ctx_err = pass_request endpoint (unpack msg)

  copies-written :
      (pieces : List Bytes) (acts : List Act)
      → written (copies pieces ++ acts) ≡ pieces ++ written acts
  copies-written [] acts = refl
  copies-written (piece ∷ pieces) acts = ap (◌∷◌ piece) (copies-written pieces acts)

  copies-ending :
      (pieces : List Bytes) (acts : List Act)
      → chosen_ending (copies pieces ++ acts) ≡ chosen_ending acts
  copies-ending [] acts = refl
  copies-ending (piece ∷ pieces) acts = copies-ending pieces acts

  -- The stream of an answer: its head, its body and its end.
  abbrev pub stream : ℕ → ℤ → List (Bytes × Bytes) → List Bytes → List Message
  stream session code headers body =
      new_chunk_v1 session (write_head code headers)
      ∷ (map (new_chunk_v1 session) body ++ new_choke_v1 session ∷ [])

  -- The status, the headers and the body that each way through the handler promises.
  pub data Promised (endpoint : Bytes)
      : Result Bytes → Option Error → ℤ → List (Bytes × Bytes) → List Bytes → Type ℓ where
    late :
        (e timeout : Error) (text : Bytes)
        → Promised endpoint (err e) (some timeout) status_request_timeout [] (text ∷ [])
    unread :
        (e : Error) (text : Bytes)
        → Promised endpoint (err e) none status_bad_request [] (text ∷ [])
    malformed :
        (msg text : Bytes) (e : Error) (c : Option Error)
        → unpack msg ≡ err e
        → Promised endpoint (ok msg) c status_bad_request [] (text ∷ [])
    unanswered :
        (msg text : Bytes) (request : R) (e : Error) (c : Option Error)
        → unpack msg ≡ ok request
        → request_app (at_endpoint endpoint request) ≡ err e
        → Promised endpoint (ok msg) c status_internal_server_error [] (text ∷ [])
    answered :
        (msg : Bytes) (request : R) (resp : AppResponse) (c : Option Error)
        → unpack msg ≡ ok request
        → request_app (at_endpoint endpoint request) ≡ ok resp
        → Promised endpoint
            (ok msg)
            c
            resp.status_code
            (headers_http_to_cocaine resp.header)
            resp.body

  -- The client gets a promised stream of these acts.
  abbrev pub Gets : Bytes → Result Bytes → Option Error → List Act → Bytes → Bytes → ℕ → Type ℓ
  Gets endpoint received ctx_err acts event stack session =
      (code : ℤ) × (headers : List (Bytes × Bytes)) × (body : List Bytes) × Promised endpoint
        received ctx_err code headers body
      × (serve event acts none stack session ≡ stream session code headers body)

  serve-answers :
      (code : ℤ) (text event stack : Bytes) (session : ℕ)
      → serve event (answers write_head code text) none stack session
        ≡ stream session code [] (text ∷ [])
  serve-answers code text event stack session =
      serve_ends_once event (answers write_head code text) none stack session

  serve-pass_answer :
      (resp : AppResponse) (event stack : Bytes) (session : ℕ)
      → serve event (pass_answer (ok resp)) none stack session
        ≡ stream session resp.status_code (headers_http_to_cocaine resp.header) resp.body
  serve-pass_answer resp event stack session =
      serve_ends_once event (pass_answer (ok resp)) none stack session
      ∙ ap₂
          (λ body ending.
            new_chunk_v1 session (write_head resp.status_code (headers_http_to_cocaine resp.header))
            ∷ (map (new_chunk_v1 session) body ++ ending_message session ending ∷ []))
          (copies-written resp.body (closes ∷ []) ∙ append-nil resp.body)
          (ap (λ e. elim e [ some x ↦ x | none ↦ default_ending event none stack ])
            (copies-ending resp.body (closes ∷ [])))

  -- However the request is received, unpacked and answered by the child, the client gets one stream:
  -- the child's status, headers and body, or a text with status 408 if the request is late, 400 if
  -- it cannot be read or unpacked, and 500 if the child does not answer; then the end of the stream.
  pub bridge_answers :
      (endpoint : Bytes) (received : Result Bytes) (ctx_err : Option Error) (event stack : Bytes)
      (session : ℕ)
      → Gets endpoint received ctx_err
          (bridge_handler endpoint received ctx_err)
          event
          stack
          session
  unfolding bridge_handler
  bridge_answers endpoint (err e) (some timeout) event stack session =
      (_, _, _, late e timeout _, serve-answers status_request_timeout _ event stack session)
  bridge_answers endpoint (err e) none event stack session =
      (_, _, _, unread e _, serve-answers status_bad_request _ event stack session)
  bridge_answers endpoint (ok msg) c event stack session = by_unpack (unpack msg) refl
    where
      by_answer :
          (request : R)
          → unpack msg ≡ ok request
          → (r : Result AppResponse) → request_app (at_endpoint endpoint request) ≡ r
          → Gets endpoint (ok msg) c (pass_answer r) event stack session
      by_answer request p (err e) q = (
        _,
        _,
        _,
        unanswered msg _ request e c p q,
        serve-answers status_internal_server_error _ event stack session,
      )
      by_answer request p (ok resp) q =
          (_, _, _, answered msg request resp c p q, serve-pass_answer resp event stack session)

      by_unpack :
          (r : Result R)
          → unpack msg ≡ r
          → Gets endpoint (ok msg) c (pass_request endpoint r) event stack session
      by_unpack (err e) p =
          (_, _, _, malformed msg _ e c p, serve-answers status_bad_request _ event stack session)
      by_unpack (ok request) p =
          by_answer request p (request_app (at_endpoint endpoint request)) refl

-- Past an argument that is not the flag.
filter_loop-other :
    (before rest : List Bytes) (arg : Bytes)
    → arg ≢ endpoint_flag
    → filter_loop before (arg ∷ rest) ≡ filter_loop (before ++ arg ∷ []) rest
unfolding filter_loop
filter_loop-other before [] arg h = refl
filter_loop-other before (value ∷ rest) arg h = elim (Bool-cases (bytes_eq arg endpoint_flag)) [
  | inl e ↦ absurd (h (bytes_eq_sound arg endpoint_flag e))
  | inr e ↦ rw e refl
]

filter_loop-past :
    (before pre rest : List Bytes)
    → All (λ a. a ≢ endpoint_flag) pre
    → filter_loop before (pre ++ rest) ≡ filter_loop (before ++ pre) rest
filter_loop-past before [] rest h = ap (λ l. filter_loop l rest) (sym (append-nil before))
filter_loop-past before (arg ∷ pre) rest (h, hs) =
    filter_loop-other before (pre ++ rest) arg h
    ∙ filter_loop-past (before ++ arg ∷ []) pre rest hs
    ∙ ap (λ l. filter_loop l rest) (append_assoc before (arg ∷ []) pre)

-- The flag and its value are cut out if a value follows, and only the first time; the array that was
-- given is then changed too, and ends in what stood in its last two places. Without a value, and
-- without the flag, nothing is changed.
pub endpoint_cut :
    (pre post : List Bytes) (value : Bytes)
    → All (λ a. a ≢ endpoint_flag) pre
    → (filter_endpoint_arg (pre ++ endpoint_flag ∷ value ∷ post)
        ≡ (pre ++ post, (pre ++ post) ++ drop (length post) (endpoint_flag ∷ value ∷ post)))
      × (filter_endpoint_arg (pre ++ endpoint_flag ∷ [])
          ≡ (pre ++ endpoint_flag ∷ [], pre ++ endpoint_flag ∷ []))
      × (filter_endpoint_arg pre ≡ (pre, pre))
unfolding filter_endpoint_arg filter_loop
endpoint_cut pre post value h = (
  filter_loop-past [] pre (endpoint_flag ∷ value ∷ post) h,
  filter_loop-past [] pre (endpoint_flag ∷ []) h,
  ap filter_endpoint_arg (sym (append-nil pre)) ∙ filter_loop-past [] pre [] h,
)
