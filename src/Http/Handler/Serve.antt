-- ===== src/Http/Handler/Serve.antt =====
-- The shape of a response: one head, then a body, then the end of the stream.
use cocaine_framework_go.Prelude.{
  ℕ, ◌≡◌, refl, sym, ap, ◌∙◌, subst, Bytes, ℤ, Bool, true, false, List, [], ◌∷◌, ◌++◌, map, none,
  append_assoc, append-nil,
}
use cocaine_framework_go.Effects.{done, ◌>>=◌}
use cocaine_framework_go.Message.{new_chunk_v1, new_choke_v1}
use cocaine_framework_go.Worker.Response.{Act, closes, serve}
use cocaine_framework_go.Http.Header.{Header, headers_http_to_cocaine}
use cocaine_framework_go.Http.Writer.{ResponseWriter, status_ok, is_not_modified, finish_request}
use cocaine_framework_go.Http.Handler.{
  HttpAct, writes_header, writes_body, writes_string, changes_header, http_act, handle, serve_http,
  before,
}
use cocaine_framework_go.Http.Handler.Shape.{
  body_acts, Room, Body, write-Wrote, empty-Body, parts, serve-parts,
}
use cocaine_framework_go.Http.Handler.Sent.{
  head_act, header_first, first_status, first_headers, body_acts-append, fresh, started,
  started-keeps, handle-cons, written_after, handle-Handled,
}

module _ (write_head : ℤ → List (Bytes × Bytes) → Bytes) where
  -- A handler's run from a writer whose header is not sent, with finishRequest.
  record Served (script : List HttpAct) (h : Header) : Type 0 where
    next : ResponseWriter
    acts : List Act
    body : List (Bool × Bytes)
    runs : handle write_head script (fresh h) ≡ done (next, acts)
    finished :
        acts ++ (finish_request write_head next).1
        ≡ head_act write_head (first_status script) (first_headers script h) ∷ body_acts body
    allows : Body (started (first_status script) (first_headers script h)) body

  finish-sent : (w : ResponseWriter) → w.wrote_header ≡ true → (finish_request write_head w).1 ≡ []
  unfolding finish_request
  finish-sent w o = simp (o)

  -- The first act that sends the header.
  Served-head :
      (a : HttpAct) (script : List HttpAct) (h : Header) (code : ℤ) (v : ResponseWriter)
      (first : List (Bool × Bytes))
      → http_act write_head a (fresh h) ≡ done (v, head_act write_head code h ∷ body_acts first)
      → v.wrote_header ≡ true
      → ((bs : List (Bool × Bytes)) → Body v bs → Body (started code h) (first ++ bs))
      → (u : ResponseWriter) × (acts : List Act) × (body : List (Bool × Bytes)) × (handle write_head
            (a ∷ script)
            (fresh h)
          ≡ done (u, acts))
        × (acts ++ (finish_request write_head u).1 ≡ head_act write_head code h ∷ body_acts body)
        × Body (started code h) body
  Served-head a script h code v first p o rest =
      let more = handle-Handled write_head script v o in
      let head = head_act write_head code h ∷ body_acts first in
      (
        more.next,
        head ++ body_acts more.body,
        first ++ more.body,
        handle-cons write_head a script (fresh h) v head p ∙ ap (λ m. m >>= before head) more.runs,
        ap (λ x. (head ++ body_acts more.body) ++ x) (finish-sent more.next more.stays)
            ∙ append-nil (head ++ body_acts more.body)
            ∙ ap (◌∷◌ (head_act write_head code h)) (sym (body_acts-append first more.body)),
        rest more.body more.allows,
      )

  handle-Served : (script : List HttpAct) (h : Header) → Served script h
  unfolding handle http_act finish_request
  handle-Served [] h = record {
    next = fresh h;
    acts = [];
    body = [];
    runs = refl;
    finished = ap (λ x. x.1) (header_first write_head status_ok h);
    allows = empty-Body (started status_ok h);
  }
  handle-Served (writes_header code ∷ script) h =
      let (u, acts, body, p, q, b) =
        Served-head (writes_header code) script h code (started code h) []
          (ap done (header_first write_head code h)) (started-keeps code h).0 (λ bs b. b) in
      record { next = u; acts = acts; body = body; runs = p; finished = q; allows = b }
  handle-Served (writes_body content ∷ script) h =
      let v = started status_ok h in
      let wrote = write-Wrote content true v (started-keeps status_ok h).0 in
      let (u, acts, body, p, q, b) =
        Served-head (writes_body content) script h status_ok wrote.next wrote.body
          (written_after write_head content true v wrote (fresh h) _
            (header_first write_head status_ok h))
          wrote.stays wrote.rest in
      record { next = u; acts = acts; body = body; runs = p; finished = q; allows = b }
  handle-Served (writes_string content ∷ script) h =
      let v = started status_ok h in
      let wrote = write-Wrote content false v (started-keeps status_ok h).0 in
      let (u, acts, body, p, q, b) =
        Served-head (writes_string content) script h status_ok wrote.next wrote.body
          (written_after write_head content false v wrote (fresh h) _
            (header_first write_head status_ok h))
          wrote.stays wrote.rest in
      record { next = u; acts = acts; body = body; runs = p; finished = q; allows = b }
  handle-Served (changes_header f ∷ script) h =
      let rest = handle-Served script (f h) in
      record {
        next = rest.next;
        acts = rest.acts;
        body = rest.body;
        runs =
            handle-cons write_head (changes_header f) script (fresh h) (fresh (f h)) [] refl
            ∙ ap (λ m. m >>= before []) rest.runs;
        finished = rest.finished;
        allows = rest.allows;
      }

-- A handler that returns is answered by one head, then a body, and the stream is ended by one
-- choke. The head has the status and the headers of the handler's first WriteHeader or write; the
-- body is empty if that status is 304, and is not longer than a Content-Length that is declared
-- there. Nothing that the handler does with its writer makes that
-- panic.
pub serve_http_answers :
    (write_head : ℤ → List (Bytes × Bytes) → Bytes) (script : List HttpAct) (event stack : Bytes)
    (session : ℕ)
    → let w = started (first_status script) (first_headers script []) in
      (acts : List Act) × (body : List (Bool × Bytes)) × (serve_http write_head script ≡ done acts)
      × (serve event acts none stack session
          ≡ new_chunk_v1 session
              (write_head (first_status script) (headers_http_to_cocaine w.handler_header))
            ∷ (map (new_chunk_v1 session) (parts body) ++ new_choke_v1 session ∷ []))
      × (is_not_modified (first_status script) ≡ true → body ≡ [])
      × Room w.content_length 0 body
unfolding serve_http
serve_http_answers write_head script event stack session =
    let served = handle-Served write_head script [] in
    let code = first_status script in
    let h = first_headers script [] in
    let head = head_act write_head code h in
    let ending = closes ∷ [] in
    let (sent, status, none_written) = started-keeps code h in
    (
      head ∷ (body_acts served.body ++ ending),
      served.body,
      ap (λ m. m >>= λ r. done (r.1 ++ ((finish_request write_head r.0).1 ++ ending))) served.runs
          ∙ ap done (
              sym (append_assoc served.acts (finish_request write_head served.next).1 ending)
              ∙ ap (λ x. x ++ ending) served.finished),
      serve-parts event stack _ served.body session,
      (λ e. served.allows.allowed (ap is_not_modified status ∙ e)),
      subst (λ n. Room (started code h).content_length n served.body) none_written
          served.allows.fits,
    )
