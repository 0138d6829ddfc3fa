-- ===== src/Cocaine/Message/Pieces.antt =====
-- cocaine/message.go: what Feed finds does not depend on how the stream is cut into pieces.
use cocaine_framework_go.Prelude.{
  ℕ, zero, suc, ◌+◌, ◌-◌, Bytes, List, [], ◌∷◌, ◌++◌, drop, length, ◌≡◌, ◌<◌, refl, sym, ap, subst,
  ◌∙◌, append_assoc, ◌⊎◌, inl, inr, length-append, arith,
}
use cocaine_framework_go.Effects.{Panic, Outcome, done, panic, blocked, ◌>>=◌}
use cocaine_framework_go.Errors.{Error, Result, ok, err}
use cocaine_framework_go.Message.{Value}
use cocaine_framework_go.Cocaine.Message.{MessageInterface, Uuids, unpack_message}
use cocaine_framework_go.Cocaine.Message.Feed.{
  Decoded, complete, fails, Codec, StreamUnpacker, feed_loop, feed, IsStreaming,
}

pub Decoded-cases :
    (d : Decoded) → (d ≡ fails) ⊎ ((res : List Value) × (rest : Bytes) × (d ≡ complete res rest))
Decoded-cases fails = inl refl
Decoded-cases (complete res rest) = inr (res, rest, refl)

Unpacked-cases :
    (m : Outcome (Result MessageInterface))
    → ((msg : MessageInterface) × (m ≡ done (ok msg)))
      ⊎ (((e : Error) × (m ≡ done (err e))) ⊎ (((p : Panic) × (m ≡ panic p)) ⊎ (m ≡ blocked)))
Unpacked-cases (done (ok msg)) = inl (msg, refl)
Unpacked-cases (done (err e)) = inr (inl (e, refl))
Unpacked-cases (panic p) = inr (inr (inl (p, refl)))
Unpacked-cases blocked = inr (inr (inr refl))

-- What a loop found, after messages that were found before.
abbrev pub after {ℓ} :
    {K : Type ℓ}
    → List MessageInterface
    → Outcome (K × List MessageInterface)
    → Outcome (K × List MessageInterface)
after msgs m = m >>= λ (kept, more). done (kept, msgs ++ more)

pub after-nil {ℓ} : {K : Type ℓ} (m : Outcome (K × List MessageInterface)) → after [] m ≡ m
after-nil (done a) = refl
after-nil (panic p) = refl
after-nil blocked = refl

pub after-append {ℓ} :
    {K : Type ℓ} (xs ys : List MessageInterface) (m : Outcome (K × List MessageInterface))
    → after (xs ++ ys) m ≡ after xs (after ys m)
after-append xs ys (done (kept, zs)) = ap (λ l. done (kept, l)) (append_assoc xs ys zs)
after-append xs ys (panic p) = refl
after-append xs ys blocked = refl

-- A loop that a further one follows, with messages before both.
after->>= {ℓ κ} :
    {K : Type ℓ} {L : Type κ} (msgs : List MessageInterface)
    (m : Outcome (K × List MessageInterface)) (f : K → Outcome (L × List MessageInterface))
    → (after msgs m >>= λ (kept, found). after found (f kept))
      ≡ after msgs (m >>= λ (kept, found). after found (f kept))
after->>= msgs (done (kept, found)) f = after-append msgs found (f kept)
after->>= msgs (panic p) f = refl
after->>= msgs blocked f = refl

-- The buffer that a loop leaves, in the unpacker.
abbrev keep :
    Outcome (Bytes × List MessageInterface) → Outcome (StreamUnpacker × List MessageInterface)
keep m = m >>= λ (kept, msgs). done (record { buf = kept }, msgs)

after-keep :
    (msgs : List MessageInterface) (m : Outcome (Bytes × List MessageInterface))
    → after msgs (keep m) ≡ keep (after msgs m)
after-keep msgs (done a) = refl
after-keep msgs (panic p) = refl
after-keep msgs blocked = refl

keep->>= :
    (m : Outcome (Bytes × List MessageInterface))
    (f : Bytes → Outcome (Bytes × List MessageInterface))
    → (keep m >>= λ (u, msgs). after msgs (keep (f u.buf)))
      ≡ keep (m >>= λ (kept, msgs). after msgs (f kept))
keep->>= (done (kept, msgs)) f = after-keep msgs (f kept)
keep->>= (panic p) f = refl
keep->>= blocked f = refl

drop-length : (xs ys : Bytes) → drop (length xs) (xs ++ ys) ≡ ys
drop-length [] ys = refl
drop-length (x ∷ xs) ys = drop-length xs ys

pub drop-prefix : (xs ys : Bytes) → drop (length (xs ++ ys) - length ys) (xs ++ ys) ≡ ys
drop-prefix xs ys =
    let n : length (xs ++ ys) - length ys ≡ length xs = omega (arith, length-append xs ys) in
    ap (λ k. drop k (xs ++ ys)) n ∙ drop-length xs ys

drop-rest :
    (skipped used rest a : Bytes)
    → a ≡ used ++ rest
    → drop (length (skipped ++ a) - length rest) (skipped ++ a) ≡ rest
drop-rest skipped used rest a eq =
    let whole : skipped ++ a ≡ (skipped ++ used) ++ rest =
      ap (λ x. skipped ++ x) eq ∙ sym (append_assoc skipped used rest) in
    ap (λ x. drop (length x - length rest) x) whole ∙ drop-prefix (skipped ++ used) rest

module _ (c : Codec) (us : Uuids) (h : IsStreaming c) where
  -- The fuel does not matter once it is above the length.
  feed_loop_fuel :
      (f g : ℕ) (tmp buf : Bytes)
      → length tmp < f
      → length tmp < g
      → feed_loop c us f tmp buf ≡ feed_loop c us g tmp buf
  unfolding feed_loop
  feed_loop_fuel zero g tmp buf p q = absurd (omega arith)
  feed_loop_fuel (suc f) zero tmp buf p q = absurd (omega arith)
  feed_loop_fuel (suc f) (suc g) tmp buf p q = elim (Decoded-cases (c.decode tmp)) [
    | inl e ↦ rw (e, feed_loop) refl
    | inr (res, rest, e) ↦
        let (used, eq, some_used, self) = h.takes tmp res rest e in
        let n : length tmp ≡ length used + length rest = ap length eq ∙ length-append used rest in
        let again : (kept : Bytes) → feed_loop c us f rest kept ≡ feed_loop c us g rest kept =
          λ kept. feed_loop_fuel f g rest kept (omega arith) (omega arith) in
        elim (Unpacked-cases (unpack_message us res)) [
          | inl (msg, u) ↦
              rw (e, u, feed_loop)
                (ap (after (msg ∷ [])) (again (drop (length buf - length rest) buf)))
          | inr (inl (x, u)) ↦ rw (e, u, feed_loop) (again buf)
          | inr (inr (inl (x, u))) ↦ rw (e, u, feed_loop) refl
          | inr (inr (inr u)) ↦ rw (e, u, feed_loop) refl
        ]
  ]

  -- The decoder passes these bytes without a message.
  IsSkipped : Bytes → Type 0
  IsSkipped skipped =
      (f : ℕ) (tail buf : Bytes)
      → length (skipped ++ tail) < f
      → feed_loop c us f (skipped ++ tail) buf ≡ feed_loop c us f tail buf

  skip_more :
      (skipped used : Bytes) (res : List Value) (e : Error)
      → IsSkipped skipped
      → 0 < length used
      → ((tail : Bytes) → c.decode (used ++ tail) ≡ complete res tail)
      → unpack_message us res ≡ done (err e)
      → IsSkipped (skipped ++ used)
  unfolding IsSkipped feed_loop
  skip_more skipped used res e sk some_used d u zero tail buf p = absurd (omega arith)
  skip_more skipped used res e sk some_used d u (suc f) tail buf p =
      let p' = subst (λ x. length x < suc f) (append_assoc skipped used tail) p in
      let n = length-append skipped (used ++ tail) in
      let n' = length-append used tail in
      let first =
        ap (λ x. feed_loop c us (suc f) x buf) (append_assoc skipped used tail)
        ∙ sk (suc f) (used ++ tail) buf p' in
      let step : feed_loop c us (suc f) (used ++ tail) buf ≡ feed_loop c us f tail buf =
        rw (d tail, u, feed_loop) refl in
      first ∙ step ∙ feed_loop_fuel f (suc f) tail buf (omega arith) (omega arith)

  -- A second Feed goes on from where the first one stopped.
  then_feed : Bytes → Bytes → Outcome (Bytes × List MessageInterface)
  then_feed more kept = feed_loop c us (suc (length (kept ++ more))) (kept ++ more) (kept ++ more)

  feed_loop_split :
      (f g : ℕ) (skipped a b : Bytes)
      → IsSkipped skipped
      → length a < f
      → length (a ++ b) < g
      → (feed_loop c us f a (skipped ++ a) >>= λ (kept, found). after found (then_feed b kept))
        ≡ feed_loop c us g (a ++ b) (skipped ++ (a ++ b))
  unfolding feed_loop then_feed IsSkipped
  feed_loop_split zero g skipped a b sk p q = absurd (omega arith)
  feed_loop_split (suc f) zero skipped a b sk p q = absurd (omega arith)
  feed_loop_split (suc f) (suc g) skipped a b sk p q = elim (Decoded-cases (c.decode a)) [
    | inl e ↦
        let stop : feed_loop c us (suc f) a (skipped ++ a) ≡ done (skipped ++ a, []) =
          rw (e, feed_loop) refl in
        let whole = append_assoc skipped a b in
        let n = length-append skipped (a ++ b) in
        ap (λ m. m >>= λ (kept, found). after found (then_feed b kept)) stop
        ∙ after-nil (then_feed b (skipped ++ a))
        ∙ ap (λ x. feed_loop c us (suc (length x)) x x) whole
        ∙ sk (suc (length (skipped ++ (a ++ b)))) (a ++ b) (skipped ++ (a ++ b)) (omega arith)
        ∙ feed_loop_fuel (suc (length (skipped ++ (a ++ b)))) (suc g) (a ++ b) (skipped ++ (a ++ b))
            (omega arith) q
    | inr (res, rest, e) ↦
        let (used, eq, some_used, self) = h.takes a res rest e in
        let n : length a ≡ length used + length rest = ap length eq ∙ length-append used rest in
        let n' = length-append a b in
        let n'' = length-append rest b in
        let eq' : a ++ b ≡ used ++ (rest ++ b) = ap (λ x. x ++ b) eq ∙ append_assoc used rest b in
        let e' = ap c.decode eq' ∙ self (rest ++ b) in
        elim (Unpacked-cases (unpack_message us res)) [
          | inl (msg, u) ↦
              let again =
                feed_loop_split f g [] rest b (λ f tail buf q. refl) (omega arith) (omega arith) in
              rw (e, e', u, drop-rest skipped used rest a eq, feed_loop)
                (rw (drop-rest skipped used (rest ++ b) (a ++ b) eq') (
                  after->>= (msg ∷ []) (feed_loop c us f rest rest) (then_feed b)
                  ∙ ap (after (msg ∷ [])) again))
          | inr (inl (x, u)) ↦
              let whole : skipped ++ a ≡ (skipped ++ used) ++ rest =
                ap (λ x. skipped ++ x) eq ∙ sym (append_assoc skipped used rest) in
              let whole' : skipped ++ (a ++ b) ≡ (skipped ++ used) ++ (rest ++ b) =
                ap (λ x. skipped ++ x) eq' ∙ sym (append_assoc skipped used (rest ++ b)) in
              let sk' = skip_more skipped used res x sk some_used self u in
              let again =
                feed_loop_split f g (skipped ++ used) rest b sk' (omega arith) (omega arith) in
              rw (e, e', u, whole, whole', feed_loop) again
          | inr (inr (inl (x, u))) ↦ rw (e, e', u, feed_loop) refl
          | inr (inr (inr u)) ↦ rw (e, e', u, feed_loop) refl
        ]
  ]

  pub feed-append :
      (a b : Bytes) (u : StreamUnpacker)
      → (feed c us a u >>= λ (u', msgs). after msgs (feed c us b u')) ≡ feed c us (a ++ b) u
  unfolding feed then_feed IsSkipped
  feed-append a b u =
      let whole = append_assoc u.buf a b in
      let n = ap length whole in
      let at_once =
        feed_loop_split (suc (length (u.buf ++ a))) (suc (length (u.buf ++ (a ++ b)))) []
          (u.buf ++ a) b (λ f tail buf q. refl) (omega arith) (omega arith) in
      keep->>= (feed_loop c us (suc (length (u.buf ++ a))) (u.buf ++ a) (u.buf ++ a)) (then_feed b)
      ∙ ap keep at_once
      ∙ ap (λ x. keep (feed_loop c us (suc (length (u.buf ++ (a ++ b)))) x x)) whole
