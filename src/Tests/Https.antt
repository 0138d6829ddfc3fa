-- ===== src/Tests/Https.antt =====
-- HTTP over a worker (cocaine12/httpresponse.go, httphandler.go, utils.go).
use cocaine_framework_go.Prelude.{
  ℕ, ◌≤◌, ◌≡◌, refl, true, Bytes, bytes, ℤ, Bool, List, [], ◌∷◌, ◌++◌, map, length, none, some,
  arith,
}
use cocaine_framework_go.Errors.{Error, Result, ok, err, eof}
use cocaine_framework_go.Effects.{done}
use cocaine_framework_go.Message.{new_chunk_v1, new_choke_v1}
use cocaine_framework_go.Worker.Response.{Act, serve}
use cocaine_framework_go.Http.Header.{
  Header, headers_http_to_cocaine, headers_cocaine_to_http, parse_length, canonical_name,
}
use cocaine_framework_go.Http.Header.RoundTrip.{
  IsCanonical, headers_cocaine_to_http-headers_http_to_cocaine,
}
use cocaine_framework_go.Http.Handler.Answers.{Answers, wrap_handler-Answers}
use cocaine_framework_go.Http.Reader.{request_reader, read}
use cocaine_framework_go.Http.Reader.Bounds.{read_bounded}
use cocaine_framework_go.Http.Reader.Drain.{concat, read_all, read_all_complete}
use cocaine_framework_go.Http.Writer.{ResponseWriter, is_not_modified}
use cocaine_framework_go.Http.Handler.{
  HttpAct, writes_header, writes_body, writes_string, changes_header, serve_http, wrap_handler,
}
use cocaine_framework_go.Http.Handler.Shape.{Room, parts}
use cocaine_framework_go.Http.Handler.Sent.{started}
use cocaine_framework_go.Cocaine.Http.{Piece, head, body, older_serve}
use cocaine_framework_go.Cocaine.Message.{Uuids}
use cocaine_framework_go.Cocaine.Message.Feed.{Codec, fails}
use cocaine_framework_go.Cocaine.Http.Same.{SameAnswer, older_serve_same}
use cocaine_framework_go.Http.Handler.Serve.{serve_http_answers}

abbrev chunks : List Bytes
chunks = bytes "he" ∷ [] ∷ bytes "llo" ∷ []

read_all_complete_example : read_all 9 2 request_reader chunks ≡ (bytes "hello", some eof)
read_all_complete_example = read_all_complete 9 2 chunks (omega arith) (omega arith)

-- Two of the three bytes of a chunk.
read_bounded_example :
    (length (read 2 request_reader (bytes "llo" ∷ [])).1.0 ≤ 2)
    × ((read 2 request_reader (bytes "llo" ∷ [])).1.0
          ++ ((read 2 request_reader (bytes "llo" ∷ [])).0.0.buffer
              ++ concat (read 2 request_reader (bytes "llo" ∷ [])).0.1)
        ≡ bytes "llo")
read_bounded_example = read_bounded 2 request_reader (bytes "llo" ∷ [])

-- A stand-in for the codec.
abbrev write_head : ℤ → List (Bytes × Bytes) → Bytes
write_head code [] = bytes "head"
write_head code ((name, value) ∷ h) = name ++ (value ++ write_head code h)

-- Five bytes are declared; the third write is too long.
abbrev page : List HttpAct
page =
    changes_header (λ h. (bytes "Content-Length", bytes "5" ∷ []) ∷ h)
    ∷ writes_body (bytes "hel")
    ∷ writes_header (ℤ.pos 404)
    ∷ writes_string (bytes "lo")
    ∷ writes_body (bytes "!")
    ∷ []

abbrev declared : ResponseWriter
declared = started (ℤ.pos 200) ((bytes "Content-Length", bytes "5" ∷ []) ∷ [])

serve_http_answers_example :
    (acts : List Act) × (body : List (Bool × Bytes)) × (serve_http write_head page ≡ done acts)
    × (serve (bytes "http") acts none [] 2
        ≡ new_chunk_v1 2 (write_head (ℤ.pos 200) (headers_http_to_cocaine declared.handler_header))
          ∷ (map (new_chunk_v1 2) (parts body) ++ new_choke_v1 2 ∷ []))
    × (is_not_modified (ℤ.pos 200) ≡ true → body ≡ [])
    × Room declared.content_length 0 body
serve_http_answers_example = serve_http_answers write_head page (bytes "http") [] 2

-- A stand-in for the codec of the older protocol: a text has its length in front.
abbrev older_codec : Codec
older_codec = record { encode = λ vs. length vs ∷ []; decode = λ b. fails }

abbrev no_uuids : Uuids
no_uuids = record { from_string = λ s. ok s; to_string = λ u. u }

abbrev encode : Piece → Bytes
encode (head code headers) = bytes "head"
encode (body b) = length b ∷ b

older_serve_same_example :
    SameAnswer write_head older_codec no_uuids encode
      (bytes "http")
      []
      2
      (serve_http write_head page)
      (older_serve page)
older_serve_same_example =
    older_serve_same write_head older_codec no_uuids encode page (bytes "http") [] 2

length_parses : parse_length (bytes "1024") ≡ some 1024
unfolding parse_length
length_parses = refl

length_refused : parse_length (bytes "-1") ≡ none
unfolding parse_length
length_refused = refl

abbrev header : Header
header =
    (bytes "Content-Type", bytes "text/plain" ∷ [])
    ∷ (bytes "Set-Cookie", bytes "a=1" ∷ bytes "b=2" ∷ [])
    ∷ []

header-IsCanonical : IsCanonical header
unfolding canonical_name
header-IsCanonical = (refl, (λ i. cc), ((λ i. cc), tt), (refl, (λ i. cc), tt, tt))

headers_cocaine_to_http-headers_http_to_cocaine_example :
    headers_cocaine_to_http (headers_http_to_cocaine header) ≡ header
headers_cocaine_to_http-headers_http_to_cocaine_example =
    headers_cocaine_to_http-headers_http_to_cocaine header header-IsCanonical

lower_case_name : canonical_name (bytes "x-real-ip") ≡ bytes "X-Real-Ip"
unfolding canonical_name
lower_case_name = refl

-- Every request unpacks to a number, and the handler does not look at it.
abbrev unpack : Bytes → Result ℕ
unpack raw = ok (length raw)

abbrev sample_error_text : Error → Bytes
sample_error_text e = bytes "failed"

abbrev handler : ℕ → List HttpAct
handler n = page

wrap_handler-Answers_example :
    Answers write_head unpack sample_error_text
      (wrap_handler write_head unpack sample_error_text handler (err eof) none)
      (write_head (ℤ.pos 400) [])
      (bytes "http")
      []
      2
wrap_handler-Answers_example =
    wrap_handler-Answers write_head unpack sample_error_text handler (err eof) none (bytes "http")
      [] 2
