-- ===== src/Cocaine/Resolve.antt =====
-- cocaine/locator.go: the goroutine of Locator.Resolve. The pieces of the answer come from
-- socketIO.Read; what unpackchunk decodes of a chunk is a parameter.
use cocaine_framework_go.Prelude.{
  ℕ, ◌≡◌, refl, sym, ap, ◌∙◌, subst, ◌==◌, if◌then◌else◌, Bytes, ℤ, pos, negsuc, Bool, true, false,
  List, [], ◌∷◌, ◌++◌, Option, none, some, All, append-nil, length, ◌⊎◌, inl, inr,
}
use cocaine_framework_go.Effects.{Outcome, done, panic, blocked, ◌>>=◌, >>=-eq-done, type_assertion}
use cocaine_framework_go.Errors.{ok}
use cocaine_framework_go.Message.{Value, byte_slice}
use cocaine_framework_go.Cocaine.Message.{
  MessageInterface, handshake_struct, heartbeat, terminate_struct, invoke, chunk, error_msg, choke,
  service_method, MessageInfo, Uuids, get_type_id, get_payload, index, message_info,
}
use cocaine_framework_go.Cocaine.Message.Feed.{
  Codec, StreamUnpacker, new_stream_unpacker, feed, feed_all, IsStreaming,
}
use cocaine_framework_go.Cocaine.Message.RoundTrip.{IsProper, IsCarried, pack_all}
use cocaine_framework_go.Cocaine.Message.Stream.{concat, feed_all-pack_all}

-- v.([]byte)
abbrev pub as_bytes : Value → Outcome Bytes
as_bytes (byte_slice b) = done b
as_bytes _ = panic type_assertion

abbrev is_number : ℕ → ℤ → Bool
is_number n (pos k) = k == n
is_number n (negsuc k) = false

-- The variables resolveresult, if its success is set, and closed.
abbrev pub Resolving {ℓ} : Type ℓ → Type ℓ
Resolving R = Option R × Bool

module _ {ℓ} {R : Type ℓ} (decode_chunk : Bytes → R) where
  unfoldable pub on_item : Uuids → MessageInterface → Resolving R → Outcome (Resolving R)
  on_item us item (result, closed) =
      if is_number 4 (get_type_id item)
      then (index (get_payload us item) 0 >>= as_bytes >>= λ b.
          done (some (decode_chunk b), closed))
      else if is_number 6 (get_type_id item)
      then done (result, true)
      else done (result, closed)

  unfoldable pub on_items : Uuids → List MessageInterface → Resolving R → Outcome (Resolving R)
  unfolding on_item
  on_items us [] s = done s
  on_items us (item ∷ items) s = on_item us item s >>= on_items us items

  -- The loop; without a further piece it waits at Read.
  unfoldable pub resolve_loop :
      Codec → Uuids → List Bytes → StreamUnpacker → Option R → Outcome (Option R)
  unfolding on_items
  resolve_loop c us [] u result = blocked
  resolve_loop c us (answer ∷ answers) u result = feed c us answer u >>= λ (u', items).
      on_items us items (result, false) >>= λ (result', closed). elim closed [
        | true ↦ done result'
        | false ↦ resolve_loop c us answers u' result'
      ]

  -- The result of the last chunk.
  abbrev pub last_chunk : Option R → List MessageInterface → Option R
  last_chunk result [] = result
  last_chunk result (chunk i content ∷ items) = last_chunk (some (decode_chunk content)) items
  last_chunk result (item ∷ items) = last_chunk result items

  abbrev pub NotChoke : MessageInterface → Type 0
  NotChoke (choke i) = ⊥
  NotChoke _ = Unit {0}

  on_items-rest :
      (us : Uuids) (items : List MessageInterface) (more : List MessageInterface)
      (result : Option R)
      → All (λ m. IsProper m × NotChoke m) items
      → on_items us (items ++ more) (result, false)
        ≡ on_items us more (last_chunk result items, false)
  unfolding on_items on_item get_payload message_info
  on_items-rest us [] more result h = refl
  on_items-rest us (handshake_struct i u ∷ items) more result ((p, _), hs) =
      rw p.0 (on_items-rest us items more result hs)
  on_items-rest us (heartbeat i ∷ items) more result ((p, _), hs) =
      rw p.0 (on_items-rest us items more result hs)
  on_items-rest us (terminate_struct i r m ∷ items) more result ((p, _), hs) =
      rw p.0 (on_items-rest us items more result hs)
  on_items-rest us (invoke i ev ∷ items) more result ((p, _), hs) =
      rw p.0 (on_items-rest us items more result hs)
  on_items-rest us (chunk i d ∷ items) more result ((p, _), hs) =
      rw p.0 (on_items-rest us items more (some (decode_chunk d)) hs)
  on_items-rest us (error_msg i code m ∷ items) more result ((p, _), hs) =
      rw p.0 (on_items-rest us items more result hs)
  on_items-rest us (choke i ∷ items) more result ((_, n), hs) = absurd n
  on_items-rest us (service_method i d ∷ items) more result ((n, _), hs) = absurd n

  on_items-choke :
      (us : Uuids) (i : MessageInfo) (result : Option R)
      → i.number ≡ pos 6
      → on_items us (choke i ∷ []) (result, false) ≡ done (result, true)
  unfolding on_items on_item message_info
  on_items-choke us i result e = rw e refl

  -- A list that ends in x, cut in two: x is the end of the first part, or of the second.
  last_of {κ} :
      {A : Type κ} (xs ys zs : List A) (x : A)
      → xs ++ ys ≡ zs ++ x ∷ []
      → ((xs ≡ zs ++ x ∷ []) × (ys ≡ [])) ⊎ ((ws : List A) × (zs ≡ xs ++ ws) × (ys ≡ ws ++ x ∷ []))
  last_of [] ys zs x e = inr (zs, refl, e)
  last_of (a ∷ []) ys [] x e = inl (cc, cc)
  last_of (a ∷ b ∷ xs) ys [] x e = cc
  last_of (a ∷ xs) ys (b ∷ zs) x e = elim (last_of xs ys zs x (cc)) [
    | inl (p, q) ↦ inl (cc, q)
    | inr (ws, p, q) ↦ inr (ws, cc, q)
  ]

  All-rest {κ} :
      {A : Type κ} (P : A → Type 0) (xs ys : List A) → All P (xs ++ ys) → All P xs × All P ys
  All-rest P [] ys h = (tt, h)
  All-rest P (x ∷ xs) ys (h, hs) = let (a, b) = All-rest P xs ys hs in ((h, a), b)

  last_chunk-append :
      (result : Option R) (xs ys : List MessageInterface)
      → last_chunk result (xs ++ ys) ≡ last_chunk (last_chunk result xs) ys
  last_chunk-append result [] ys = refl
  last_chunk-append result (handshake_struct i u ∷ xs) ys = last_chunk-append result xs ys
  last_chunk-append result (heartbeat i ∷ xs) ys = last_chunk-append result xs ys
  last_chunk-append result (terminate_struct i r m ∷ xs) ys = last_chunk-append result xs ys
  last_chunk-append result (invoke i ev ∷ xs) ys = last_chunk-append result xs ys
  last_chunk-append result (chunk i d ∷ xs) ys = last_chunk-append (some (decode_chunk d)) xs ys
  last_chunk-append result (error_msg i code m ∷ xs) ys = last_chunk-append result xs ys
  last_chunk-append result (choke i ∷ xs) ys = last_chunk-append result xs ys
  last_chunk-append result (service_method i d ∷ xs) ys = last_chunk-append result xs ys

  -- What the loop does after the messages of a piece.
  abbrev goes_on : Codec → Uuids → List Bytes → StreamUnpacker → Resolving R → Outcome (Option R)
  goes_on c us answers u (result, closed) = elim closed [
    | true ↦ done result
    | false ↦ resolve_loop c us answers u result
  ]

  resolve_loop-feed :
      (c : Codec) (us : Uuids) (answer : Bytes) (answers : List Bytes) (u u1 : StreamUnpacker)
      (result : Option R) (first : List MessageInterface)
      → feed c us answer u ≡ done (u1, first)
      → resolve_loop c us (answer ∷ answers) u result
        ≡ (on_items us first (result, false) >>= goes_on c us answers u1)
  unfolding resolve_loop
  resolve_loop-feed c us answer answers u u1 result first p = rw p refl

  resolve_loop-last :
      (c : Codec) (us : Uuids) (answers : List Bytes) (u v : StreamUnpacker) (result : Option R)
      (items : List MessageInterface) (i : MessageInfo)
      → feed_all c us answers u ≡ done (v, items ++ choke i ∷ [])
      → All (λ m. IsProper m × NotChoke m) items
      → i.number ≡ pos 6
      → resolve_loop c us answers u result ≡ done (last_chunk result items)
  unfolding feed_all on_items
  resolve_loop-last c us [] u v result [] i e h n = cc
  resolve_loop-last c us [] u v result (m ∷ items) i e h n = cc
  resolve_loop-last c us (answer ∷ answers) u v result items i e h n =
      let ((u1, first), p, q) = >>=-eq-done (feed c us answer u) _ e in
      let ((u2, rest), p', q') = >>=-eq-done (feed_all c us answers u1) _ q in
      resolve_loop-feed c us answer answers u u1 result first p
      ∙ by_end u1 u2 first rest p' (last_of first rest items (choke i) cc)
          (λ r ws f a. resolve_loop-last c us answers u1 u2 r ws i f a n)
    where
      by_end :
          (u1 u2 : StreamUnpacker) (first rest : List MessageInterface)
          → feed_all c us answers u1 ≡ done (u2, rest)
          → ((first ≡ items ++ choke i ∷ []) × (rest ≡ []))
            ⊎ ((ws : List MessageInterface) × (items ≡ first ++ ws) × (rest ≡ ws ++ choke i ∷ []))
          → ((r : Option R) (ws : List MessageInterface)
              → feed_all c us answers u1 ≡ done (u2, ws ++ choke i ∷ [])
              → All (λ m. IsProper m × NotChoke m) ws
              → resolve_loop c us answers u1 r ≡ done (last_chunk r ws))
          → (on_items us first (result, false) >>= goes_on c us answers u1)
            ≡ done (last_chunk result items)
      by_end u1 u2 first rest p' (inl (k, l)) again =
          ap (λ x. x >>= goes_on c us answers u1)
            (ap (λ x. on_items us x (result, false)) k
              ∙ on_items-rest us items (choke i ∷ []) result h
              ∙ on_items-choke us i (last_chunk result items) n)
      by_end u1 u2 first rest p' (inr (ws, k, l)) again =
          let (a, b) =
            All-rest (λ m. IsProper m × NotChoke m) first ws
              (subst (All (λ m. IsProper m × NotChoke m)) k h) in
          ap (λ x. x >>= goes_on c us answers u1)
            (ap (λ x. on_items us x (result, false)) (sym (append-nil first))
              ∙ on_items-rest us first [] result a)
          ∙ again (last_chunk result first) ws (p' ∙ ap (λ x. done (u2, x)) l) b
          ∙ ap done (sym (last_chunk-append result first ws) ∙ ap (last_chunk result) (sym k))

  -- When a locator answers with messages of which only the last is a choke, Resolve returns, with what
  -- was decoded of the last chunk, or without success if there was no chunk, however the answer is
  -- cut into pieces; here the codec is a stream decoder that carries these messages, a UUID can be
  -- read back from its string, and each message has the number of its type and integers of 64 bits.
  pub resolve_returns :
      (c : Codec) (us : Uuids)
      → IsStreaming c
      → ((u : Bytes) → length u ≡ 16 → us.from_string (us.to_string u) ≡ ok u)
      → (items : List MessageInterface) (i : MessageInfo) (answers : List Bytes)
      → All (λ m. IsProper m × IsCarried c us m) (items ++ choke i ∷ [])
      → All NotChoke items
      → concat answers ≡ pack_all c us (items ++ choke i ∷ [])
      → resolve_loop c us answers new_stream_unpacker none ≡ done (last_chunk none items)
  resolve_returns c us streaming law items i answers all inner eq =
      let (proper, end) = All-rest (λ m. IsProper m × IsCarried c us m) items (choke i ∷ []) all in
      resolve_loop-last c us answers new_stream_unpacker new_stream_unpacker none items i
        (feed_all-pack_all c us streaming law (items ++ choke i ∷ []) answers all eq)
        (both items proper inner) end.0.0.0
    where
      both :
          (items : List MessageInterface)
          → All (λ m. IsProper m × IsCarried c us m) items
          → All NotChoke items
          → All (λ m. IsProper m × NotChoke m) items
      both [] p q = tt
      both (m ∷ items) ((p, _), ps) (q, qs) = ((p, q), both items ps qs)
