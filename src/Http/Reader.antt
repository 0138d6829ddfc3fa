-- ===== src/Http/Reader.antt =====
-- cocaine12/utils.go: requestReader, an io.Reader over the chunks of a request.
pub mod Drain
pub mod Bounds
use cocaine_framework_go.Prelude.{
  ℕ, Bytes, if◌then◌else◌, length, take, drop, List, [], ◌∷◌, Option, none, some,
}
use cocaine_framework_go.Errors.{Error, Result, ok, err, stream_is_closed, eof}

pub record RequestReader : Type 0 where
  pub buffer : Bytes

abbrev pub request_reader : RequestReader
request_reader = record { buffer = [] }

-- The error that Read returns for an error of the request.
abbrev pub reader_error : Error → Error
reader_error stream_is_closed = eof
reader_error e = e

-- Read into a slice of length n: what is read, and the error. `next` is the request's next chunk,
-- which is asked for only when the buffer is empty.
unfoldable pub fill : ℕ → Result Bytes → RequestReader → RequestReader × Bytes × Option Error
fill n (ok chunk) r = (record { buffer = drop n chunk }, take n chunk, none)
fill n (err e) r = (r, [], some (reader_error e))

-- The chunks of a request that is then closed: what Request.Read returns, and what is left.
abbrev pub next_chunk : List Bytes → Result Bytes × List Bytes
next_chunk [] = (err stream_is_closed, [])
next_chunk (c ∷ cs) = (ok c, cs)

-- Read on such a request.
unfoldable pub read :
    ℕ → RequestReader → List Bytes → (RequestReader × List Bytes) × (Bytes × Option Error)
unfolding fill
read n r chunks = elim r.buffer [
  | [] ↦
      let (next, rest) = next_chunk chunks in
      let (r', out, e) = fill n next r in ((r', rest), (out, e))
  | b ∷ bs ↦ ((record { buffer = drop n (b ∷ bs) }, chunks), (take n (b ∷ bs), none))
]
