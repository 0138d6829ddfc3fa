-- ===== src/Cocaine/Message/Stream.antt =====
-- cocaine/message.go: Feed on a stream that arrives in pieces.
use cocaine_framework_go.Prelude.{
  suc, Bytes, List, [], ◌∷◌, ◌++◌, length, ◌≡◌, refl, sym, ap, ◌∙◌, append-nil, arith, All,
}
use cocaine_framework_go.Effects.{Outcome, done, panic, blocked, ◌>>=◌}
use cocaine_framework_go.Errors.{ok}
use cocaine_framework_go.Cocaine.Message.{MessageInterface, Uuids}
use cocaine_framework_go.Cocaine.Message.Feed.{
  Codec, StreamUnpacker, new_stream_unpacker, feed, feed_all, feed_loop, IsStreaming,
}
use cocaine_framework_go.Cocaine.Message.Pieces.{after, feed-append}
use cocaine_framework_go.Cocaine.Message.RoundTrip.{
  decode_nothing, IsProper, IsCarried, pack_all, feed_loop-pack_all,
}

abbrev pub concat : List Bytes → Bytes
concat [] = []
concat (piece ∷ pieces) = piece ++ concat pieces

after-cong :
    (m : Outcome (StreamUnpacker × List MessageInterface))
    (f g : StreamUnpacker → Outcome (StreamUnpacker × List MessageInterface))
    → ((u : StreamUnpacker) → f u ≡ g u)
    → (m >>= λ (u, msgs). after msgs (f u)) ≡ (m >>= λ (u, msgs). after msgs (g u))
after-cong (done (u, msgs)) f g h = ap (after msgs) (h u)
after-cong (panic p) f g h = refl
after-cong blocked f g h = refl

after-done :
    (m : Outcome (StreamUnpacker × List MessageInterface))
    → (m >>= λ (u, msgs). after msgs (done (u, []))) ≡ m
after-done (done (u, msgs)) = ap (λ l. done (u, l)) (append-nil msgs)
after-done (panic p) = refl
after-done blocked = refl

-- However a stream is cut into pieces, feeding them one by one finds the messages, keeps the
-- bytes and panics as feeding the whole stream at once does, if the codec is a stream decoder.
pub feed_all_at_once :
    (c : Codec) (us : Uuids)
    → IsStreaming c
    → (piece : Bytes) (pieces : List Bytes) (u : StreamUnpacker)
    → feed_all c us (piece ∷ pieces) u ≡ feed c us (piece ++ concat pieces) u
unfolding feed_all
feed_all_at_once c us h piece [] u =
    after-done (feed c us piece u) ∙ ap (λ x. feed c us x u) (sym (append-nil piece))
feed_all_at_once c us h piece (next ∷ pieces) u =
    after-cong (feed c us piece u) (feed_all c us (next ∷ pieces))
      (feed c us (next ++ concat pieces)) (feed_all_at_once c us h next pieces)
    ∙ feed-append c us h piece (next ++ concat pieces) u

feed-nothing :
    (c : Codec) (us : Uuids)
    → IsStreaming c
    → feed c us [] new_stream_unpacker ≡ done (new_stream_unpacker, [])
unfolding feed
feed-nothing c us h = rw (decode_nothing c h, feed_loop) refl

feed-pack_all :
    (c : Codec) (us : Uuids)
    → IsStreaming c
    → ((u : Bytes) → length u ≡ 16 → us.from_string (us.to_string u) ≡ ok u)
    → (ms : List MessageInterface) → All (λ m. IsProper m × IsCarried c us m) ms
    → feed c us (pack_all c us ms) new_stream_unpacker ≡ done (new_stream_unpacker, ms)
unfolding feed
feed-pack_all c us h law ms all =
    rw (feed_loop-pack_all c us h law ms (suc (length (pack_all c us ms))) all (omega arith)) refl

-- The messages that a peer packed, sent in any pieces, are the messages that a new unpacker finds,
-- each once and in order, and no byte is left, if the codec is a stream decoder that carries these
-- messages, a UUID can be read back from its string, and each message has the number of its type
-- and integers of 64 bits.
pub feed_all-pack_all :
    (c : Codec) (us : Uuids)
    → IsStreaming c
    → ((u : Bytes) → length u ≡ 16 → us.from_string (us.to_string u) ≡ ok u)
    → (ms : List MessageInterface) (pieces : List Bytes)
    → All (λ m. IsProper m × IsCarried c us m) ms
    → concat pieces ≡ pack_all c us ms
    → feed_all c us pieces new_stream_unpacker ≡ done (new_stream_unpacker, ms)
unfolding feed_all
feed_all-pack_all c us h law ms [] all eq =
    sym (feed-nothing c us h)
    ∙ ap (λ x. feed c us x new_stream_unpacker) eq
    ∙ feed-pack_all c us h law ms all
feed_all-pack_all c us h law ms (piece ∷ pieces) all eq =
    feed_all_at_once c us h piece pieces new_stream_unpacker
    ∙ ap (λ x. feed c us x new_stream_unpacker) eq
    ∙ feed-pack_all c us h law ms all
