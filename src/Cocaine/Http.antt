-- ===== src/Cocaine/Http.antt =====
-- cocaine/response_writer.go, and WrapHandler of cocaine/httpreq.go. What a writer hands to its
-- response is a list of values, which Response.Write encodes (older_ops). UnpackProxyRequest calls
-- the codec and net/http and is a parameter. The fields of the writer are those of cocaine12.
pub mod Same
use cocaine_framework_go.Prelude.{
  ℕ, ◌+◌, ltb, if◌then◌else◌, length, Bytes, bytes, ℤ, Bool, true, false, List, [], ◌∷◌, ◌++◌,
  Option, none, some,
}
use cocaine_framework_go.Errors.{Error, Result, ok, err, body_not_allowed, content_length}
use cocaine_framework_go.Effects.{Outcome, done, panic, ◌>>=◌, explicit}
use cocaine_framework_go.Cocaine.Message.{Uuids}
use cocaine_framework_go.Cocaine.Message.Feed.{Codec}
use cocaine_framework_go.Cocaine.Relay.{ResponseOp, response_write, response_close}
use cocaine_framework_go.Http.Header.{
  Header, header_get, header_del, with_name, header_add, parse_length,
}
use cocaine_framework_go.Http.Writer.{
  ResponseWriter, new_writer, status_ok, is_not_modified, is_empty,
}
use cocaine_framework_go.Http.Handler.{
  HttpAct, writes_header, writes_body, writes_string, changes_header,
}

-- A value that the writer hands to its response: what WriteHead makes, or a body.
pub data Piece : Type 0 where
  head : ℤ → List (Bytes × Bytes) → Piece
  body : Bytes → Piece

unfoldable pub http_header_to_cocaine_header : Header → List (Bytes × Bytes)
http_header_to_cocaine_header [] = []
http_header_to_cocaine_header ((name, vs) ∷ header) =
    with_name name vs ++ http_header_to_cocaine_header header

unfoldable pub add_each : Header → List (Bytes × Bytes) → Header
unfolding header_add
add_each header [] = header
add_each header ((name, value) ∷ hdr) = add_each (header_add name value header) hdr

unfoldable pub cocaine_header_to_http_header : List (Bytes × Bytes) → Header
unfolding add_each
cocaine_header_to_http_header hdr = add_each [] hdr

-- The Content-Length that a handler declares.
unfoldable pub declared : ResponseWriter → ResponseWriter
declared w =
    let cl = header_get (bytes "Content-Length") w.handler_header in
    if is_empty cl then w else (elim (parse_length cl) [
      | some v ↦ record w { content_length = some v }
      | none ↦ record w { handler_header = header_del (bytes "Content-Length") w.handler_header }
    ])

unfoldable pub older_write_header : ℤ → ResponseWriter → ResponseWriter × List Piece
unfolding declared http_header_to_cocaine_header
older_write_header code w =
    if w.wrote_header
    then (w, [])
    else (let w' = declared (record w { wrote_header = true; status = code }) in
        (w', head code (http_header_to_cocaine_header w'.handler_header) ∷ []))

-- RemoveAll deletes temporary files.
unfoldable pub older_finish_request : ResponseWriter → ResponseWriter × List Piece
unfolding older_write_header
older_finish_request w = if w.wrote_header then (w, []) else older_write_header status_ok w

unfoldable pub older_body_allowed : ResponseWriter → Outcome Bool
older_body_allowed w =
    if w.wrote_header
    then done (if is_not_modified w.status then false else true)
    else panic explicit

abbrev pub OlderResult : Type 0
OlderResult = ResponseWriter × List Piece × (ℕ × Option Error)

-- The end of write, for a body that is not empty.
abbrev pub older_write_body : Bytes → ResponseWriter → Bool → OlderResult
older_write_body content w false = (w, [], (0, some body_not_allowed))
older_write_body content w true =
    let written = w.written + length content in
    let counted = record w { written = written } in
    let sent : OlderResult = (counted, body content ∷ [], (length content, none)) in
    elim w.content_length [
      | none ↦ sent
      | some n ↦ if ltb n written then (counted, [], (0, some content_length)) else sent
    ]

abbrev pub after_head : Bytes → ResponseWriter → List Piece → Bool → Outcome OlderResult
after_head content w first allowed =
    let (w', more, r) = older_write_body content w allowed in done (w', first ++ more, r)

unfoldable pub older_write_rest : Bytes → ResponseWriter × List Piece → Outcome OlderResult
unfolding older_body_allowed
older_write_rest content (w, first) =
    if is_empty content
    then done (w, first, (0, none))
    else older_body_allowed w >>= after_head content w first

-- write, which Write and WriteString call; both hand their data to Response.Write.
unfoldable pub older_write : Bytes → ResponseWriter → Outcome OlderResult
unfolding older_write_header older_write_rest
older_write content w = older_write_rest content (older_write_header status_ok w)

abbrev pub without_result : OlderResult → ResponseWriter × List Piece
without_result (w, sent, r) = (w, sent)

unfoldable pub older_act : HttpAct → ResponseWriter → Outcome (ResponseWriter × List Piece)
unfolding older_write_header older_write
older_act (writes_header code) w = done (older_write_header code w)
older_act (writes_body content) w = older_write content w >>= λ r. done (without_result r)
older_act (writes_string content) w = older_write content w >>= λ r. done (without_result r)
older_act (changes_header f) w = done (record w { handler_header = f w.handler_header }, [])

abbrev pub then_more :
    List Piece → ResponseWriter × List Piece → Outcome (ResponseWriter × List Piece)
then_more first (w, more) = done (w, first ++ more)

unfoldable pub older_handle : List HttpAct → ResponseWriter → Outcome (ResponseWriter × List Piece)
unfolding older_act
older_handle [] w = done (w, [])
older_handle (a ∷ rest) w = older_act a w >>= λ r. older_handle rest r.0 >>= then_more r.1

-- What the wrapper of WrapHandler hands to the response, before it closes it.
unfoldable pub older_serve : List HttpAct → Outcome (List Piece)
unfolding older_handle older_finish_request
older_serve script =
    older_handle script new_writer >>= λ r. done (r.1 ++ (older_finish_request r.0).1)

-- What Response.Write does with each piece, which the codec encodes first, and the Close of the
-- wrapper.
module _ (c : Codec) (us : Uuids) (session : ℤ) (encode : Piece → Bytes) where
  unfoldable pub hands : List Piece → List ResponseOp
  unfolding response_write
  hands [] = []
  hands (piece ∷ pieces) = response_write c us session (encode piece) ++ hands pieces

  unfoldable pub older_ops : List Piece → List ResponseOp
  unfolding hands response_close
  older_ops pieces = hands pieces ++ response_close c us session

unfoldable pub older_wrap_handler {ℓ} :
    {R : Type ℓ} → (Bytes → Result R) → (R → List HttpAct) → Bytes → Outcome (List Piece)
unfolding older_serve
older_wrap_handler unpack handler raw = elim (unpack raw) [
  | err e ↦ done (head (ℤ.pos 400) [] ∷ [])
  | ok request ↦ older_serve (handler request)
]
