-- ===== src/Cocaine/Message/Feed.antt =====
-- cocaine/message.go: packMsg, and the stream unpacker with its buffer. The codec is the parameter
-- Codec.
use cocaine_framework_go.Prelude.{
  ℕ, zero, suc, ◌-◌, Bytes, List, [], ◌∷◌, ◌++◌, drop, length, ◌≡◌, ◌<◌,
}
use cocaine_framework_go.Effects.{Outcome, done, blocked, ◌>>=◌}
use cocaine_framework_go.Errors.{ok, err}
use cocaine_framework_go.Message.{Value}
use cocaine_framework_go.Cocaine.Message.{MessageInterface, Uuids, pack_items, unpack_message}

-- A Decode of a []interface{} from a buffer: the values and what is left of the buffer, or an
-- error (the end of the buffer, or bytes that are no value).
pub data Decoded : Type 0 where
  complete : List Value → Bytes → Decoded
  fails : Decoded

-- Encode of a []interface{}, and Decode.
pub record Codec : Type 0 where
  pub encode : List Value → Bytes
  pub decode : Bytes → Decoded

unfoldable pub pack_msg : Codec → Uuids → MessageInterface → Bytes
unfolding pack_items
pack_msg c us msg = c.encode (pack_items us msg)

-- The buffer that the unpacker keeps.
pub record StreamUnpacker : Type 0 where
  pub buf : Bytes

abbrev pub new_stream_unpacker : StreamUnpacker
new_stream_unpacker = record { buf = [] }

-- The loop of Feed on what the decoder has left of the buffer (`tmp`) and on unpacker.buf. It
-- returns the buffer and the messages. Without fuel it waits for ever.
unfoldable pub feed_loop :
    Codec → Uuids → ℕ → Bytes → Bytes → Outcome (Bytes × List MessageInterface)
feed_loop c us zero tmp buf = blocked
feed_loop c us (suc fuel) tmp buf = elim (c.decode tmp) [
  | fails ↦ done (buf, [])
  | complete res rest ↦ unpack_message us res >>= λ r. elim r [
    | err e ↦ feed_loop c us fuel rest buf
    | ok msg ↦ feed_loop c us fuel rest (drop (length buf - length rest) buf) >>= λ (kept, msgs).
        done (kept, msg ∷ msgs)
  ]
]

-- A round takes a byte from the buffer or is the last one.
unfoldable pub feed :
    Codec → Uuids → Bytes → StreamUnpacker → Outcome (StreamUnpacker × List MessageInterface)
unfolding feed_loop
feed c us content u =
    let buf = u.buf ++ content in
    feed_loop c us (suc (length buf)) buf buf >>= λ (kept, msgs). done (record { buf = kept }, msgs)

-- One call of Feed for each piece of the stream.
unfoldable pub feed_all :
    Codec → Uuids → List Bytes → StreamUnpacker → Outcome (StreamUnpacker × List MessageInterface)
unfolding feed
feed_all c us [] u = done (u, [])
feed_all c us (piece ∷ pieces) u = feed c us piece u >>= λ (u', msgs).
    feed_all c us pieces u' >>= λ (u'', more). done (u'', msgs ++ more)

-- What the unpacker relies on: a Decode takes at least one byte from the front of the buffer, and
-- what follows these bytes does not change what it finds.
pub record IsStreaming (c : Codec) : Type 0 where
  pub takes :
      (b : Bytes) (res : List Value) (rest : Bytes)
      → c.decode b ≡ complete res rest
      → (used : Bytes) × (b ≡ used ++ rest)
        × (0 < length used)
        × ((tail : Bytes) → c.decode (used ++ tail) ≡ complete res tail)
