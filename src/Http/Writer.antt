-- ===== src/Http/Writer.antt =====
-- cocaine12/httpresponse.go: ResponseWriter, and WrapHandler of cocaine12/httphandler.go. What a
-- writer does with its ResponseStream is a list of acts on it. A number of bytes is not bounded:
-- `written` and Content-Length are int64, and no body has 2 ^ 63 bytes.
use cocaine_framework_go.Prelude.{
  ℕ, ◌+◌, ◌==◌, ltb, if◌then◌else◌, length, Bytes, bytes, ℤ, Bool, true, false, List, [], ◌∷◌, ◌++◌,
  Option, none, some,
}
use cocaine_framework_go.Errors.{Error, body_not_allowed, content_length}
use cocaine_framework_go.Effects.{Outcome, done, panic, ◌>>=◌, explicit}
use cocaine_framework_go.Worker.Response.{Act, writes, zero_copy_writes}
use cocaine_framework_go.Http.Header.{
  Header, header_get, header_del, headers_http_to_cocaine, parse_length,
}

pub record ResponseWriter : Type 0 where
  pub handler_header : Header
  pub written : ℕ
  -- `none` is -1
  pub content_length : Option ℕ
  pub status : ℤ
  pub wrote_header : Bool

abbrev pub new_writer : ResponseWriter
new_writer = record {
  handler_header = [];
  written = 0;
  content_length = none;
  status = ℤ.pos 0;
  wrote_header = false;
}

-- The statuses of net/http that the code names.
abbrev pub status_ok : ℤ
status_ok = ℤ.pos 200

abbrev pub is_not_modified : ℤ → Bool
is_not_modified (ℤ.pos n) = n == 304
is_not_modified (ℤ.negsuc n) = false

abbrev pub is_empty {ℓ} : {A : Type ℓ} → List A → Bool
is_empty [] = true
is_empty (x ∷ xs) = false

-- The declared length, or a header without it if it does not parse.
unfoldable pub declare_length : ResponseWriter → ResponseWriter
declare_length w =
    let cl = header_get (bytes "Content-Length") w.handler_header in
    if is_empty cl then w else (elim (parse_length cl) [
      | some v ↦ record w { content_length = some v }
      | none ↦ record w { handler_header = header_del (bytes "Content-Length") w.handler_header }
    ])

-- bodyAllowed
unfoldable pub body_allowed : ResponseWriter → Outcome Bool
body_allowed w =
    if w.wrote_header
    then done (if is_not_modified w.status then false else true)
    else panic explicit

abbrev pub WriteResult : Type 0
WriteResult = ResponseWriter × List Act × (ℕ × Option Error)

-- The write of a body that is not empty, after the header.
abbrev pub write_body : Bytes → Bool → ResponseWriter → Bool → WriteResult
write_body content should_copy w false = (w, [], (0, some body_not_allowed))
write_body content should_copy w true =
    let written = w.written + length content in
    let counted = record w { written = written } in
    let sent : WriteResult = (
      counted,
      (if should_copy then writes content else zero_copy_writes content) ∷ [],
      (length content, none),
    ) in
    elim w.content_length [
      | none ↦ sent
      | some n ↦ if ltb n written then (counted, [], (0, some content_length)) else sent
    ]

-- The rest of write, once the header is sent.
abbrev pub write_checked : Bytes → Bool → ResponseWriter → List Act → Bool → Outcome WriteResult
write_checked content should_copy w head allowed =
    let (w', body, r) = write_body content should_copy w allowed in done (w', head ++ body, r)

unfoldable pub write_rest : Bytes → Bool → ResponseWriter × List Act → Outcome WriteResult
unfolding body_allowed
write_rest content should_copy (w, head) =
    if is_empty content
    then done (w, head, (0, none))
    else body_allowed w >>= write_checked content should_copy w head

-- WriteHead packs the status and the headers.
module _ (write_head : ℤ → List (Bytes × Bytes) → Bytes) where
  unfoldable pub write_header : ℤ → ResponseWriter → ResponseWriter × List Act
  unfolding declare_length
  write_header code w =
      if w.wrote_header
      then (w, [])
      else (let w' = declare_length (record w { wrote_header = true; status = code }) in
          (w', zero_copy_writes (write_head code (headers_http_to_cocaine w'.handler_header)) ∷ []))

  -- write, which Write and WriteString call.
  unfoldable pub write : Bytes → Bool → ResponseWriter → Outcome WriteResult
  unfolding write_header write_rest
  write content should_copy w = write_rest content should_copy (write_header status_ok w)

  -- finishRequest; RemoveAll deletes temporary files.
  unfoldable pub finish_request : ResponseWriter → ResponseWriter × List Act
  finish_request w = if w.wrote_header then (w, []) else write_header status_ok w
