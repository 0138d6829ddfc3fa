-- ===== src/Http/Handler/Sent.antt =====
-- A handler whose writer has sent its header.
use cocaine_framework_go.Prelude.{
  ◌≡◌, refl, sym, ap, ◌∙◌, Bytes, ℤ, Bool, true, false, List, [], ◌∷◌, ◌++◌, arith,
}
use cocaine_framework_go.Effects.{done, ◌>>=◌}
use cocaine_framework_go.Worker.Response.{Act, writes, zero_copy_writes}
use cocaine_framework_go.Http.Header.{Header, headers_http_to_cocaine}
use cocaine_framework_go.Http.Writer.{
  ResponseWriter, new_writer, status_ok, declare_length, write_header, write, write_rest,
}
use cocaine_framework_go.Http.Handler.{
  HttpAct, writes_header, writes_body, writes_string, changes_header, http_act, handle, only_acts,
  before,
}
use cocaine_framework_go.Http.Handler.Shape.{body_acts, Body, Wrote, write-Wrote, empty-Body}

-- The status and the headers of a response: those at the handler's first WriteHeader or write, and
-- 200 if that is a write, or if there is none.
abbrev pub first_status : List HttpAct → ℤ
first_status [] = status_ok
first_status (writes_header code ∷ rest) = code
first_status (writes_body content ∷ rest) = status_ok
first_status (writes_string content ∷ rest) = status_ok
first_status (changes_header f ∷ rest) = first_status rest

abbrev pub first_headers : List HttpAct → Header → Header
first_headers [] h = h
first_headers (writes_header code ∷ rest) h = h
first_headers (writes_body content ∷ rest) h = h
first_headers (writes_string content ∷ rest) h = h
first_headers (changes_header f ∷ rest) h = first_headers rest (f h)

pub body_acts-append :
    (xs ys : List (Bool × Bytes)) → body_acts (xs ++ ys) ≡ body_acts xs ++ body_acts ys
body_acts-append [] ys = refl
body_acts-append ((true, b) ∷ xs) ys = ap (◌∷◌ (writes b)) (body_acts-append xs ys)
body_acts-append ((false, b) ∷ xs) ys = ap (◌∷◌ (zero_copy_writes b)) (body_acts-append xs ys)

-- A writer whose header map is h, before and after its header is sent.
abbrev pub fresh : Header → ResponseWriter
fresh h = record new_writer { handler_header = h }

pub started : ℤ → Header → ResponseWriter
started code h = declare_length (record (fresh h) { wrote_header = true; status = code })

declare_length-keeps :
    (w : ResponseWriter)
    → ((declare_length w).wrote_header ≡ w.wrote_header)
      × ((declare_length w).status ≡ w.status)
      × ((declare_length w).written ≡ w.written)
unfolding declare_length
declare_length-keeps w = ground arith

pub started-keeps :
    (code : ℤ) (h : Header)
    → ((started code h).wrote_header ≡ true)
      × ((started code h).status ≡ code)
      × ((started code h).written ≡ 0)
unfolding started
started-keeps code h = declare_length-keeps _

module _ (write_head : ℤ → List (Bytes × Bytes) → Bytes) where
  -- A handler's run from a writer whose header is sent.
  pub record Handled (script : List HttpAct) (w : ResponseWriter) : Type 0 where
    pub next : ResponseWriter
    pub body : List (Bool × Bytes)
    pub runs : handle write_head script w ≡ done (next, body_acts body)
    pub stays : next.wrote_header ≡ true
    pub allows : Body w body

  header_sent :
      (code : ℤ) (w : ResponseWriter)
      → w.wrote_header ≡ true
      → write_header write_head code w ≡ (w, [])
  unfolding write_header
  header_sent code w o = simp (o)

  pub handle-cons :
      (a : HttpAct) (script : List HttpAct) (w v : ResponseWriter) (first : List Act)
      → http_act write_head a w ≡ done (v, first)
      → handle write_head (a ∷ script) w ≡ (handle write_head script v >>= before first)
  unfolding handle
  handle-cons a script w v first p =
      ap (λ m. m >>= λ r. handle write_head script r.0 >>= before r.1) p

  Handled-cons :
      (a : HttpAct) (script : List HttpAct) (w v : ResponseWriter) (first : List (Bool × Bytes))
      → http_act write_head a w ≡ done (v, body_acts first)
      → ((bs : List (Bool × Bytes)) → Body v bs → Body w (first ++ bs))
      → Handled script v
      → Handled (a ∷ script) w
  Handled-cons a script w v first p rest h = record {
    next = h.next;
    body = first ++ h.body;
    runs =
        handle-cons a script w v (body_acts first) p
        ∙ ap (λ m. m >>= before (body_acts first)) h.runs
        ∙ ap (λ x. done (h.next, x)) (sym (body_acts-append first h.body));
    stays = h.stays;
    allows = rest h.body h.allows;
  }

  pub written_after :
      (content : Bytes) (copied : Bool) (w : ResponseWriter) (wrote : Wrote content copied w)
      → (v : ResponseWriter) (head : List Act) → write_header write_head status_ok v ≡ (w, head)
      → (write write_head content copied v >>= λ r. done (only_acts r))
        ≡ done (wrote.next, head ++ body_acts wrote.body)
  unfolding write
  written_after content copied w wrote v head h =
      ap (λ x. write_rest content copied x >>= λ r. done (only_acts r)) h
      ∙ ap (λ m. m >>= λ r. done (only_acts r)) (wrote.runs head)

  pub handle-Handled :
      (script : List HttpAct) (w : ResponseWriter) → w.wrote_header ≡ true → Handled script w
  unfolding handle http_act
  handle-Handled [] w o = record {
    next = w;
    body = [];
    runs = refl;
    stays = o;
    allows = empty-Body w;
  }
  handle-Handled (writes_header code ∷ script) w o =
      Handled-cons (writes_header code) script w w [] (ap done (header_sent code w o)) (λ bs b. b)
        (handle-Handled script w o)
  handle-Handled (writes_body content ∷ script) w o =
      let wrote = write-Wrote content true w o in
      Handled-cons (writes_body content) script w wrote.next wrote.body
        (written_after content true w wrote w [] (header_sent status_ok w o)) wrote.rest
        (handle-Handled script wrote.next wrote.stays)
  handle-Handled (writes_string content ∷ script) w o =
      let wrote = write-Wrote content false w o in
      Handled-cons (writes_string content) script w wrote.next wrote.body
        (written_after content false w wrote w [] (header_sent status_ok w o)) wrote.rest
        (handle-Handled script wrote.next wrote.stays)
  handle-Handled (changes_header f ∷ script) w o =
      let v = record w { handler_header = f w.handler_header } in
      Handled-cons (changes_header f) script w v [] refl
        (λ bs b. record { fits = b.fits; allowed = b.allowed }) (handle-Handled script v o)

  abbrev pub head_act : ℤ → Header → Act
  head_act code h =
      zero_copy_writes (write_head code (headers_http_to_cocaine (started code h).handler_header))

  pub header_first :
      (code : ℤ) (h : Header)
      → write_header write_head code (fresh h) ≡ (started code h, head_act code h ∷ [])
  unfolding write_header started
  header_first code h = refl
