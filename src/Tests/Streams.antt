-- ===== src/Tests/Streams.antt =====
-- Streams of messages of the older protocol (cocaine/message.go), with a small codec.
use cocaine_framework_go.Prelude.{
  zero, suc, none, some, Bytes, pos, List, [], ◌∷◌, ◌++◌, ◌≡◌, ◌<◌, refl, length, arith,
}
use cocaine_framework_go.Effects.{done, panic, nil_dereference, index_out_of_range}
use cocaine_framework_go.Errors.{ok}
use cocaine_framework_go.Message.{Value, int64, uint64, byte_slice, array, nil, cons}
use cocaine_framework_go.Cocaine.Message.{
  MessageInterface, chunk, choke, info, Uuids, unpack_message, unpack_chunk, pack_items,
  get_payload, message_info,
}
use cocaine_framework_go.Cocaine.Message.Feed.{
  Codec, Decoded, complete, fails, new_stream_unpacker, pack_msg, feed, feed_all, IsStreaming,
}
use cocaine_framework_go.Cocaine.Message.RoundTrip.{wired, wired_items}
use cocaine_framework_go.Cocaine.Resolve.{resolve_loop, resolve_returns}
use cocaine_framework_go.Cocaine.Message.Stream.{feed_all_at_once, feed_all-pack_all}

abbrev pub plain_uuids : Uuids
plain_uuids = record { from_string = λ s. ok s; to_string = λ u. u }

-- A choke of session n is 0, n; a chunk of one byte x is 1, n, x.
small_encode : List Value → Bytes
small_encode (number ∷ int64 (pos n) ∷ array nil ∷ []) = 0 ∷ n ∷ []
small_encode (number ∷ int64 (pos n) ∷ array (cons (byte_slice (x ∷ [])) nil) ∷ []) = 1 ∷ n ∷ x ∷ []
small_encode _ = []

small_decode : Bytes → Decoded
small_decode (zero ∷ n ∷ rest) = complete (int64 (pos 6) ∷ int64 (pos n) ∷ array nil ∷ []) rest
small_decode (suc zero ∷ n ∷ x ∷ rest) =
    complete (int64 (pos 4) ∷ int64 (pos n) ∷ array (cons (byte_slice (x ∷ [])) nil) ∷ []) rest
small_decode _ = fails

abbrev pub small_codec : Codec
unfolding small_encode small_decode
small_codec = record { encode = small_encode; decode = small_decode }

small_takes :
    (b : Bytes) (res : List Value) (rest : Bytes)
    → small_decode b ≡ complete res rest
    → (used : Bytes) × (b ≡ used ++ rest)
      × (0 < length used)
      × ((tail : Bytes) → small_decode (used ++ tail) ≡ complete res tail)
unfolding small_decode
small_takes (zero ∷ n ∷ more) res rest e = (0 ∷ n ∷ [], cc, omega arith, λ tail. cc)
small_takes (suc zero ∷ n ∷ x ∷ more) res rest e = (1 ∷ n ∷ x ∷ [], cc, omega arith, λ tail. cc)
small_takes [] res rest e = cc
small_takes (zero ∷ []) res rest e = cc
small_takes (suc zero ∷ []) res rest e = cc
small_takes (suc zero ∷ n ∷ []) res rest e = cc
small_takes (suc (suc k) ∷ more) res rest e = cc

small_codec-IsStreaming : IsStreaming small_codec
unfolding small_codec small_decode
small_codec-IsStreaming = record { takes = small_takes }

abbrev sent : List MessageInterface
sent = chunk (info (pos 4) (pos 5)) (9 ∷ []) ∷ choke (info (pos 6) (pos 5)) ∷ []

unknown_type_panics :
    unpack_message plain_uuids (int64 (pos 7) ∷ int64 (pos 5) ∷ array nil ∷ [])
    ≡ panic nil_dereference
unfolding unpack_message unpack_chunk
unknown_type_panics = refl

empty_chunk_panics :
    unpack_message plain_uuids (int64 (pos 4) ∷ uint64 200 ∷ array nil ∷ [])
    ≡ panic index_out_of_range
unfolding unpack_message unpack_chunk
empty_chunk_panics = refl

feed_all_at_once_example :
    feed_all small_codec plain_uuids
      ((1 ∷ []) ∷ (5 ∷ 9 ∷ 0 ∷ []) ∷ (5 ∷ []) ∷ [])
      new_stream_unpacker
    ≡ feed small_codec plain_uuids (1 ∷ 5 ∷ 9 ∷ 0 ∷ 5 ∷ []) new_stream_unpacker
feed_all_at_once_example =
    feed_all_at_once small_codec plain_uuids small_codec-IsStreaming (1 ∷ [])
      ((5 ∷ 9 ∷ 0 ∷ []) ∷ (5 ∷ []) ∷ []) new_stream_unpacker

feed_all-pack_all_example :
    feed_all small_codec plain_uuids
      ((1 ∷ []) ∷ (5 ∷ 9 ∷ 0 ∷ []) ∷ (5 ∷ []) ∷ [])
      new_stream_unpacker
    ≡ done (new_stream_unpacker, sent)
unfolding small_codec small_encode small_decode pack_msg pack_items get_payload message_info wired
    wired_items
feed_all-pack_all_example =
    feed_all-pack_all small_codec plain_uuids small_codec-IsStreaming (λ u h. refl) sent
      ((1 ∷ []) ∷ (5 ∷ 9 ∷ 0 ∷ []) ∷ (5 ∷ []) ∷ [])
      (((refl, omega arith), λ tail. refl), (((refl, omega arith), λ tail. refl), tt)) refl

resolve_returns_example :
    resolve_loop
      (λ b. b)
      small_codec
      plain_uuids
      ((1 ∷ []) ∷ (5 ∷ 9 ∷ 0 ∷ []) ∷ (5 ∷ []) ∷ [])
      new_stream_unpacker
      none
    ≡ done (some (9 ∷ []))
unfolding small_codec small_encode small_decode pack_msg pack_items get_payload message_info wired
    wired_items
resolve_returns_example =
    resolve_returns (λ b. b) small_codec plain_uuids small_codec-IsStreaming (λ u h. refl)
      (chunk (info (pos 4) (pos 5)) (9 ∷ []) ∷ []) (info (pos 6) (pos 5))
      ((1 ∷ []) ∷ (5 ∷ 9 ∷ 0 ∷ []) ∷ (5 ∷ []) ∷ [])
      (((refl, omega arith), λ tail. refl), (((refl, omega arith), λ tail. refl), tt)) (tt, tt) refl
