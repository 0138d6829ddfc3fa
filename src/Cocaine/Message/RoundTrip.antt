-- ===== src/Cocaine/Message/RoundTrip.antt =====
-- cocaine/message.go: a stream of packed messages, cut into any pieces, is fed to the unpacker.
use cocaine_framework_go.Prelude.{
  ℕ, zero, suc, ◌^◌, ltb, if◌then◌else◌, Bytes, ℤ, pos, negsuc, List, [], ◌∷◌, ◌++◌, map, length,
  ◌≡◌, ◌<◌, refl, inl, inr, ap, ap₂, ◌∙◌, length-append, arith, All, if_cases, lt→ltb,
}
use cocaine_framework_go.Effects.{done}
use cocaine_framework_go.Errors.{ok}
use cocaine_framework_go.Message.{
  Value, int, int64, uint64, byte_slice, text, array, Items, nil, cons,
}
use cocaine_framework_go.Cocaine.Message.{
  MessageInterface, handshake_struct, heartbeat, terminate_struct, invoke, chunk, error_msg, choke,
  service_method, Uuids, get_payload, message_info, pack_items, unpack_message, session_of,
  error_code, error_text, info, unpackers, unpack_handshake, unpack_heartbeat, unpack_terminate,
  unpack_invoke, unpack_chunk, unpack_error_msg, unpack_choke,
}
use cocaine_framework_go.Cocaine.Message.Feed.{
  Codec, complete, fails, pack_msg, feed_loop, IsStreaming,
}
use cocaine_framework_go.Cocaine.Message.Pieces.{after, Decoded-cases, drop-prefix}

abbrev IsInt64 : ℤ → Type 0
IsInt64 (pos n) = n < 2 ^ 63
IsInt64 (negsuc n) = n < 2 ^ 63

-- A message of the protocol: it has the number of its type, and its integers fit.
abbrev pub IsProper : MessageInterface → Type 0
IsProper (handshake_struct i u) = (i.number ≡ pos 0) × IsInt64 i.channel × (length u ≡ 16)
IsProper (heartbeat i) = (i.number ≡ pos 1) × IsInt64 i.channel
IsProper (terminate_struct i r m) = (i.number ≡ pos 2) × IsInt64 i.channel
IsProper (invoke i e) = (i.number ≡ pos 3) × IsInt64 i.channel
IsProper (chunk i d) = (i.number ≡ pos 4) × IsInt64 i.channel
IsProper (error_msg i code m) = (i.number ≡ pos 5) × IsInt64 i.channel × IsInt64 code
IsProper (choke i) = (i.number ≡ pos 6) × IsInt64 i.channel
IsProper (service_method i d) = ⊥

-- How an integer comes back from MessagePack: one that is above 127 is unsigned.
abbrev wired_int : ℤ → Value
wired_int (pos n) = if ltb n 128 then int64 (pos n) else uint64 n
wired_int (negsuc n) = int64 (negsuc n)

-- How values come back: strings as []byte, integers as int64 or uint64.
unfoldable mutual
  pub wired : Value → Value
  wired (int i) = wired_int i
  wired (int64 i) = wired_int i
  wired (text s) = byte_slice s
  wired (array vs) = array (wired_items vs)
  wired v = v

  pub wired_items : Items → Items
  wired_items nil = nil
  wired_items (cons v vs) = cons (wired v) (wired_items vs)

session_of-wired_int : (i : ℤ) → IsInt64 i → session_of (wired_int i) ≡ i
unfolding session_of
session_of-wired_int (pos n) h =
    if_cases (λ v. session_of v ≡ pos n) (ltb n 128) (int64 (pos n)) (uint64 n) (λ small. refl)
      (λ large. rw (lt→ltb n (2 ^ 63) h) refl)
session_of-wired_int (negsuc n) h = refl

error_code-wired_int : (i : ℤ) → IsInt64 i → error_code (wired_int i) ≡ i
unfolding error_code
error_code-wired_int (pos n) h =
    if_cases (λ v. error_code v ≡ pos n) (ltb n 128) (int64 (pos n)) (uint64 n) (λ small. refl)
      (λ large. rw (lt→ltb n (2 ^ 63) h) refl)
error_code-wired_int (negsuc n) h = refl

unpack-pack :
    (us : Uuids) (m : MessageInterface)
    → ((u : Bytes) → length u ≡ 16 → us.from_string (us.to_string u) ≡ ok u)
    → IsProper m
    → unpack_message us (map wired (pack_items us m)) ≡ done (ok m)
unfolding unpack_message wired wired_items pack_items get_payload message_info unpackers
    unpack_handshake unpack_heartbeat unpack_terminate unpack_invoke unpack_chunk unpack_error_msg
    error_text unpack_choke
unpack-pack us (handshake_struct i u) law (e, h, l) =
    rw (e, law u l)
      (ap (λ s. done (ok (handshake_struct (info (pos 0) s) u))) (session_of-wired_int i.channel h))
unpack-pack us (heartbeat i) law (e, h) =
    rw e (ap (λ s. unpack_heartbeat s []) (session_of-wired_int i.channel h))
unpack-pack us (terminate_struct i r m) law (e, h) =
    rw e (
      ap (λ s. done (ok (terminate_struct (info (pos 2) s) r m)))
        (session_of-wired_int i.channel h))
unpack-pack us (invoke i ev) law (e, h) =
    rw e (ap (λ s. done (ok (invoke (info (pos 3) s) ev))) (session_of-wired_int i.channel h))
unpack-pack us (chunk i d) law (e, h) =
    rw e (ap (λ s. done (ok (chunk (info (pos 4) s) d))) (session_of-wired_int i.channel h))
unpack-pack us (error_msg i code m) law (e, h, l) = rw e (
    ap₂ (λ s k. done (ok (error_msg (info (pos 5) s) k m))) (session_of-wired_int i.channel h)
      (error_code-wired_int code l))
unpack-pack us (choke i) law (e, h) =
    rw e (ap (λ s. unpack_choke s []) (session_of-wired_int i.channel h))
unpack-pack us (service_method i d) law h = absurd h

-- The bytes of a stream of messages.
abbrev pub pack_all : Codec → Uuids → List MessageInterface → Bytes
unfolding pack_msg
pack_all c us [] = []
pack_all c us (m ∷ ms) = pack_msg c us m ++ pack_all c us ms

-- What the codec does with a message: Decode finds the encoded values at the front of a buffer.
abbrev pub IsCarried : Codec → Uuids → MessageInterface → Type 0
unfolding pack_msg
IsCarried c us m =
    (tail : Bytes)
    → c.decode (pack_msg c us m ++ tail) ≡ complete (map wired (pack_items us m)) tail

pub decode_nothing : (c : Codec) → IsStreaming c → c.decode [] ≡ fails
decode_nothing c h = elim (Decoded-cases (c.decode [])) [
  | inl e ↦ e
  | inr (res, rest, e) ↦
      let (used, eq, some_used, self) = h.takes [] res rest e in
      let n = ap length eq ∙ length-append used rest in absurd (omega arith)
]

module _ (c : Codec) (us : Uuids) (h : IsStreaming c)
    (law : (u : Bytes) → length u ≡ 16 → us.from_string (us.to_string u) ≡ ok u) where
  pub feed_loop-pack_all :
      (ms : List MessageInterface) (f : ℕ)
      → All (λ m. IsProper m × IsCarried c us m) ms
      → length (pack_all c us ms) < f
      → feed_loop c us f (pack_all c us ms) (pack_all c us ms) ≡ done ([], ms)
  unfolding feed_loop pack_all IsCarried pack_msg
  feed_loop-pack_all ms zero all p = absurd (omega arith)
  feed_loop-pack_all [] (suc f) all p = rw (decode_nothing c h, feed_loop) refl
  feed_loop-pack_all (m ∷ ms) (suc f) ((proper, carried), all) p =
      let tail = pack_all c us ms in
      let n = length-append (pack_msg c us m) tail in
      let (used, eq, some_used, self) = h.takes (pack_msg c us m ++ tail) _ tail (carried tail) in
      let n' = ap length eq ∙ length-append used tail in
      let again = feed_loop-pack_all ms f all (omega arith) in
      rw (carried tail, unpack-pack us m law proper, drop-prefix (pack_msg c us m) tail, feed_loop)
        (ap (after (m ∷ [])) again)
