-- ===== src/Http/Handler.antt =====
-- cocaine12/httphandler.go: WrapHandler, WrapHTTPFunc and convertToHTTPFunc. A handler of net/http
-- is the list of what it does with its ResponseWriter; here it returns. The codec and the text of
-- an error are parameters: write_head is WriteHead, unpack UnpackProxyRequest.
pub mod Shape
pub mod Sent
pub mod Serve
pub mod Answers
use cocaine_framework_go.Prelude.{
  Bytes, bytes, ℤ, Bool, true, false, List, [], ◌∷◌, ◌++◌, Option, none, some,
}
use cocaine_framework_go.Errors.{Error, Result, ok, err}
use cocaine_framework_go.Effects.{Outcome, done, ◌>>=◌}
use cocaine_framework_go.Worker.Response.{Act, writes, closes}
use cocaine_framework_go.Http.Header.{Header}
use cocaine_framework_go.Http.Writer.{
  ResponseWriter, new_writer, write_header, write, finish_request,
}

pub data HttpAct : Type 0 where
  writes_header : ℤ → HttpAct
  writes_body writes_string : Bytes → HttpAct
  -- on the map that Header() returns
  changes_header : (Header → Header) → HttpAct

abbrev pub only_acts {ℓ} : {A : Type ℓ} → ResponseWriter × List Act × A → ResponseWriter × List Act
only_acts (w, sent, r) = (w, sent)

abbrev pub before : List Act → ResponseWriter × List Act → Outcome (ResponseWriter × List Act)
before first (w, more) = done (w, first ++ more)

abbrev pub status_request_timeout : ℤ
status_request_timeout = ℤ.pos 408

abbrev pub status_bad_request : ℤ
status_bad_request = ℤ.pos 400

module _ (write_head : ℤ → List (Bytes × Bytes) → Bytes) where
  unfoldable pub http_act : HttpAct → ResponseWriter → Outcome (ResponseWriter × List Act)
  http_act (writes_header code) w = done (write_header write_head code w)
  http_act (writes_body content) w = write write_head content true w >>= λ r. done (only_acts r)
  http_act (writes_string content) w = write write_head content false w >>= λ r. done (only_acts r)
  http_act (changes_header f) w = done (record w { handler_header = f w.handler_header }, [])

  unfoldable pub handle : List HttpAct → ResponseWriter → Outcome (ResponseWriter × List Act)
  handle [] w = done (w, [])
  handle (a ∷ rest) w = http_act a w >>= λ r. handle rest r.0 >>= before r.1

  -- The handler, finishRequest and the deferred Close.
  unfoldable pub serve_http : List HttpAct → Outcome (List Act)
  serve_http script = handle script new_writer >>= λ r.
      done (r.1 ++ ((finish_request write_head r.0).1 ++ closes ∷ []))

  -- An answer of convertToHTTPFunc on an error, and the deferred Close.
  abbrev pub answers : ℤ → Bytes → List Act
  answers code text = writes (write_head code []) ∷ writes text ∷ closes ∷ []

  module _ {ℓ} {R : Type ℓ} (unpack : Bytes → Result R) (error_text : Error → Bytes) where
    -- WrapHandler. `received` is how request.Read ends, `ctx_err` is ctx.Err().
    unfoldable pub wrap_handler :
        (R → List HttpAct) → Result Bytes → Option Error → Outcome (List Act)
    unfolding serve_http
    wrap_handler handler (err e) (some timeout) =
        done (answers status_request_timeout (bytes "request was not received during a timeout"))
    wrap_handler handler (err e) none =
        done (answers status_bad_request (bytes "cannot process request " ++ error_text e))
    wrap_handler handler (ok raw) ctx_err = elim (unpack raw) [
      | err e ↦ done (answers status_bad_request (bytes "malformed request"))
      | ok req ↦ serve_http (handler req)
    ]
