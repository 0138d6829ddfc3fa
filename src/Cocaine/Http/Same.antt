-- ===== src/Cocaine/Http/Same.antt =====
-- cocaine/response_writer.go and cocaine12/httpresponse.go: both writers answer alike.
use cocaine_framework_go.Prelude.{
  ℕ, pos, none, some, map, ◌+◌, ◌≡◌, refl, sym, ap, ap₂, subst, ◌∙◌, ltb, if◌then◌else◌, length,
  Bytes, ℤ, Bool, true, false, List, [], ◌∷◌, ◌++◌, Bool-cases, Option-cases, inl, inr, append-nil,
}
use cocaine_framework_go.Effects.{Outcome, done, panic, blocked, ◌>>=◌, >>=-eq-done, explicit}
use cocaine_framework_go.Message.{new_chunk_v1, new_choke_v1}
use cocaine_framework_go.Worker.Response.{Act, writes, zero_copy_writes, closes, fails, serve}
use cocaine_framework_go.Worker.Response.Terminal.{
  written, chosen_ending, choked, ending_message, serve_ends_once, default_ending,
}
use cocaine_framework_go.Http.Handler.Serve.{serve_http_answers}
use cocaine_framework_go.Http.Header.{Header, headers_http_to_cocaine}
use cocaine_framework_go.Http.Writer.{
  ResponseWriter, new_writer, status_ok, is_empty, is_not_modified, declare_length, body_allowed,
  write_body, write_checked, write_rest, write_header, write, finish_request,
}
use cocaine_framework_go.Http.Handler.{
  HttpAct, writes_header, writes_body, writes_string, changes_header, http_act, handle, serve_http,
  only_acts, before,
}
use cocaine_framework_go.Cocaine.Message.{Uuids, chunk, info, type_chunk}
use cocaine_framework_go.Cocaine.Message.Feed.{Codec, pack_msg}
use cocaine_framework_go.Cocaine.Relay.{ResponseOp, gives, response_write, response_close}
use cocaine_framework_go.Cocaine.Http.{
  hands, older_ops, Piece, head, body, http_header_to_cocaine_header, declared, older_write_header,
  older_finish_request, older_body_allowed, older_write_body, after_head, older_write_rest,
  older_write, without_result, older_act, then_more, older_handle, older_serve,
}

-- Acts that leave the stream open.
abbrev IsOpen : List Act → Type 0
IsOpen acts = chosen_ending acts ≡ none

written-append : (xs ys : List Act) → IsOpen xs → written (xs ++ ys) ≡ written xs ++ written ys
written-append [] ys h = refl
written-append (writes b ∷ xs) ys h = ap (◌∷◌ b) (written-append xs ys h)
written-append (zero_copy_writes b ∷ xs) ys h = ap (◌∷◌ b) (written-append xs ys h)
written-append (closes ∷ xs) ys h = cc
written-append (fails code text ∷ xs) ys h = cc

ending-append : (xs ys : List Act) → IsOpen xs → chosen_ending (xs ++ ys) ≡ chosen_ending ys
ending-append [] ys h = refl
ending-append (writes b ∷ xs) ys h = ending-append xs ys h
ending-append (zero_copy_writes b ∷ xs) ys h = ending-append xs ys h
ending-append (closes ∷ xs) ys h = cc
ending-append (fails code text ∷ xs) ys h = cc

same_headers : (h : Header) → http_header_to_cocaine_header h ≡ headers_http_to_cocaine h
unfolding http_header_to_cocaine_header headers_http_to_cocaine
same_headers [] = refl
same_headers ((name, vs) ∷ h) = ap (◌++◌ _) (same_headers h)

module _ (write_head : ℤ → List (Bytes × Bytes) → Bytes) where
  -- The older pieces, with the head packed as cocaine12 packs it.
  abbrev pub packed : List Piece → List Bytes
  packed [] = []
  packed (head code headers ∷ ps) = write_head code headers ∷ packed ps
  packed (body b ∷ ps) = b ∷ packed ps

  packed-append : (xs ys : List Piece) → packed (xs ++ ys) ≡ packed xs ++ packed ys
  packed-append [] ys = refl
  packed-append (head code headers ∷ xs) ys =
      ap (◌∷◌ (write_head code headers)) (packed-append xs ys)
  packed-append (body b ∷ xs) ys = ap (◌∷◌ b) (packed-append xs ys)

  -- The same bytes, on a stream that stays open.
  abbrev Sends : List Act → List Piece → Type 0
  Sends acts ps = (written acts ≡ packed ps) × IsOpen acts

  -- Two runs that leave the same writer and send the same bytes, or end alike.
  Alike : Outcome (ResponseWriter × List Act) → Outcome (ResponseWriter × List Piece) → Type 0
  Alike (done (w, acts)) (done (v, ps)) = (w ≡ v) × Sends acts ps
  Alike (panic p) (panic q) = p ≡ q
  Alike blocked blocked = Unit {0}
  Alike _ _ = ⊥

  write_header-Alike :
      (code : ℤ) (w : ResponseWriter)
      → Alike (done (write_header write_head code w)) (done (older_write_header code w))
  unfolding Alike write_header older_write_header declare_length declared
  write_header-Alike code w = elim (Bool-cases w.wrote_header) [
    | inl e ↦ rw e (refl, (refl, refl))
    | inr e ↦ rw e (refl, (ap (λ x. write_head code x ∷ []) (sym (same_headers _)), refl))
  ]

  one_piece :
      (copied : Bool) (content : Bytes)
      → let acts = (if copied then writes content else zero_copy_writes content) ∷ [] in
        (written acts ≡ content ∷ []) × IsOpen acts
  one_piece true content = (refl, refl)
  one_piece false content = (refl, refl)

  write_body-Alike :
      (content : Bytes) (copied allowed : Bool) (w : ResponseWriter)
      → Alike
          (done (only_acts (write_body content copied w allowed)))
          (done (without_result (older_write_body content w allowed)))
  unfolding Alike
  write_body-Alike content copied false w = (refl, (refl, refl))
  write_body-Alike content copied true w = elim (Option-cases w.content_length) [
    | inl e ↦ rw e (refl, one_piece copied content)
    | inr (n, e) ↦ elim (Bool-cases (ltb n (w.written + length content))) [
      | inl over ↦ rw (e, over) (refl, (refl, refl))
      | inr fits ↦ rw (e, fits) (refl, one_piece copied content)
    ]
  ]

  joined :
      {v w : ResponseWriter} (acts : List Act) (ps : List Piece) (more : List Act)
      (rest : List Piece)
      → Sends acts ps
      → (v ≡ w) × Sends more rest
      → Alike (done (v, acts ++ more)) (done (w, ps ++ rest))
  unfolding Alike
  joined acts ps more rest (h, o) (e, (k, n)) = (
    e,
    (
      written-append acts more o ∙ ap₂ ◌++◌ h k ∙ sym (packed-append ps rest),
      ending-append acts more o ∙ n,
    ),
  )

  abbrev allowed_by : ResponseWriter → Bool
  allowed_by w = if is_not_modified w.status then false else true

  both_allow :
      (w : ResponseWriter)
      → w.wrote_header ≡ true
      → (body_allowed w ≡ done (allowed_by w)) × (older_body_allowed w ≡ done (allowed_by w))
  unfolding body_allowed older_body_allowed
  both_allow w f = (rw f refl, rw f refl)

  both_panic :
      (w : ResponseWriter)
      → w.wrote_header ≡ false
      → (body_allowed w ≡ panic explicit) × (older_body_allowed w ≡ panic explicit)
  unfolding body_allowed older_body_allowed
  both_panic w f = (rw f refl, rw f refl)

  from_results :
      (content : Bytes) (copied : Bool) (w : ResponseWriter) (acts : List Act) (ps : List Piece)
      (m n : Outcome Bool)
      → is_empty content ≡ false
      → body_allowed w ≡ m
      → older_body_allowed w ≡ n
      → Alike
          (m >>= write_checked content copied w acts >>= λ r. done (only_acts r))
          (n >>= after_head content w ps >>= λ r. done (without_result r))
      → Alike
          (write_rest content copied (w, acts) >>= λ r. done (only_acts r))
          (older_write_rest content (w, ps) >>= λ r. done (without_result r))
  unfolding write_rest older_write_rest
  from_results content copied w acts ps m n e p q t =
      let new : write_rest content copied (w, acts) ≡ (m >>= write_checked content copied w acts) =
        rw e (ap (λ x. x >>= write_checked content copied w acts) p) in
      let old : older_write_rest content (w, ps) ≡ (n >>= after_head content w ps) =
        rw e (ap (λ x. x >>= after_head content w ps) q) in
      subst
        (λ x.
          Alike (x >>= λ r. done (only_acts r))
            (older_write_rest content (w, ps) >>= λ r. done (without_result r)))
        (sym new)
        (subst
          (λ y.
            Alike (m >>= write_checked content copied w acts >>= λ r. done (only_acts r))
              (y >>= λ r. done (without_result r)))
          (sym old) t)

  -- After a head that both have sent.
  written-Alike :
      (content : Bytes) (copied : Bool) (w : ResponseWriter) (acts : List Act) (ps : List Piece)
      → Sends acts ps
      → Alike
          (write_rest content copied (w, acts) >>= λ r. done (only_acts r))
          (older_write_rest content (w, ps) >>= λ r. done (without_result r))
  unfolding Alike write_rest older_write_rest
  written-Alike content copied w acts ps h = elim (Bool-cases (is_empty content)) [
    | inl e ↦ rw e (refl, h)
    | inr e ↦ elim (Bool-cases w.wrote_header) [
      | inl f ↦
          let b = write_body-Alike content copied (allowed_by w) w in
          from_results content copied w acts ps (done (allowed_by w)) (done (allowed_by w)) e
            (both_allow w f).0 (both_allow w f).1 (joined acts ps _ _ h b)
      | inr f ↦
          from_results content copied w acts ps (panic explicit) (panic explicit) e
            (both_panic w f).0 (both_panic w f).1 refl
    ]
  ]

  write-Alike :
      (content : Bytes) (copied : Bool) (w : ResponseWriter)
      → Alike
          (write write_head content copied w >>= λ r. done (only_acts r))
          (older_write content w >>= λ r. done (without_result r))
  unfolding Alike write older_write
  write-Alike content copied w =
      let (e, h) = write_header-Alike status_ok w in
      let (w', acts) = write_header write_head status_ok w in
      let (v, ps) = older_write_header status_ok w in
      subst
        (λ x.
          Alike (write_rest content copied (w', acts) >>= λ r. done (only_acts r))
            (older_write_rest content (x, ps) >>= λ r. done (without_result r)))
        e (written-Alike content copied w' acts ps h)

  older_act-Alike :
      (a : HttpAct) (w : ResponseWriter) → Alike (http_act write_head a w) (older_act a w)
  unfolding Alike http_act older_act
  older_act-Alike (writes_header code) w = write_header-Alike code w
  older_act-Alike (writes_body content) w = write-Alike content true w
  older_act-Alike (writes_string content) w = write-Alike content false w
  older_act-Alike (changes_header f) w = (refl, (refl, refl))

  before-Alike :
      (acts : List Act) (ps : List Piece) (m : Outcome (ResponseWriter × List Act))
      (n : Outcome (ResponseWriter × List Piece))
      → Sends acts ps
      → Alike m n
      → Alike (m >>= before acts) (n >>= then_more ps)
  unfolding Alike
  before-Alike acts ps (done (w, more)) (done (v, rest)) h k = joined acts ps more rest h k
  before-Alike acts ps (panic p) (panic q) h k = k
  before-Alike acts ps blocked blocked h k = tt
  before-Alike acts ps (done r) (panic q) h k = absurd k
  before-Alike acts ps (done r) blocked h k = absurd k
  before-Alike acts ps (panic p) (done r) h k = absurd k
  before-Alike acts ps (panic p) blocked h k = absurd k
  before-Alike acts ps blocked (done r) h k = absurd k
  before-Alike acts ps blocked (panic q) h k = absurd k

  then-Alike :
      (rest : List HttpAct) (m : Outcome (ResponseWriter × List Act))
      (n : Outcome (ResponseWriter × List Piece))
      → ((v : ResponseWriter) → Alike (handle write_head rest v) (older_handle rest v))
      → Alike m n
      → Alike
          (m >>= λ r. handle write_head rest r.0 >>= before r.1)
          (n >>= λ r. older_handle rest r.0 >>= then_more r.1)
  unfolding Alike
  then-Alike rest (done (v, acts)) (done (v', ps)) alike (e, h) =
      subst
        (λ x.
          Alike (handle write_head rest v >>= before acts) (older_handle rest x >>= then_more ps))
        e (before-Alike acts ps (handle write_head rest v) (older_handle rest v) h (alike v))
  then-Alike rest (panic p) (panic q) alike k = k
  then-Alike rest blocked blocked alike k = tt
  then-Alike rest (done r) (panic q) alike k = absurd k
  then-Alike rest (done r) blocked alike k = absurd k
  then-Alike rest (panic p) (done r) alike k = absurd k
  then-Alike rest (panic p) blocked alike k = absurd k
  then-Alike rest blocked (done r) alike k = absurd k
  then-Alike rest blocked (panic q) alike k = absurd k

  handle-Alike :
      (script : List HttpAct) (w : ResponseWriter)
      → Alike (handle write_head script w) (older_handle script w)
  unfolding Alike handle older_handle
  handle-Alike [] w = (refl, (refl, refl))
  handle-Alike (a ∷ rest) w =
      then-Alike rest (http_act write_head a w) (older_act a w) (handle-Alike rest)
        (older_act-Alike a w)

  finish-Alike :
      (w : ResponseWriter)
      → Alike (done (finish_request write_head w)) (done (older_finish_request w))
  unfolding Alike finish_request older_finish_request
  finish-Alike w = either w.wrote_header
    where
      either :
          (b : Bool)
          → Alike
              (done (if b then (w, []) else write_header write_head status_ok w))
              (done (if b then (w, []) else older_write_header status_ok w))
      either true = (refl, (refl, refl))
      either false = write_header-Alike status_ok w

  module _ (c : Codec) (us : Uuids) (encode : Piece → Bytes) (event stack : Bytes)
      (session : ℕ) where
    -- The messages of the older response for these pieces, each encoded, and its end.
    abbrev pub encoded : List Piece → List ResponseOp
    encoded pieces =
        map (λ p. gives (pack_msg c us (chunk (info type_chunk (pos session)) (encode p)))) pieces
        ++ response_close c us (pos session)

    -- Both calls return, with the same pieces: the stream of the first has a chunk for each of them
    -- and a choke, and so has that of the second, where each piece is encoded.
    abbrev pub SameAnswer : Outcome (List Act) → Outcome (List Piece) → Type 0
    SameAnswer m n =
        (acts : List Act) × (pieces : List Piece) × (m ≡ done acts)
        × (n ≡ done pieces)
        × (serve event acts none stack session
            ≡ map (new_chunk_v1 session) (packed pieces) ++ new_choke_v1 session ∷ [])
        × (older_ops c us (pos session) encode pieces ≡ encoded pieces)

    older_ops-encoded :
        (pieces : List Piece) → older_ops c us (pos session) encode pieces ≡ encoded pieces
    unfolding older_ops hands response_write
    older_ops-encoded [] = refl
    older_ops-encoded (p ∷ pieces) =
        ap (λ x. gives (pack_msg c us (chunk (info type_chunk (pos session)) (encode p))) ∷ x)
          (older_ops-encoded pieces)

    finished-SameAnswer :
        (w : ResponseWriter) (acts : List Act) (n : Outcome (ResponseWriter × List Piece))
        → Alike (done (w, acts)) n
        → SameAnswer
            (done (acts ++ ((finish_request write_head w).1 ++ closes ∷ [])))
            (n >>= λ r. done (r.1 ++ (older_finish_request r.0).1))
    unfolding Alike
    finished-SameAnswer w acts (panic q) k = absurd k
    finished-SameAnswer w acts blocked k = absurd k
    finished-SameAnswer w acts (done (v, ps)) (e, (h, o)) =
        let ending = (finish_request write_head w).1 ++ closes ∷ [] in
        let rest = (older_finish_request v).1 in
        let (same, (k, still)) = finish-Alike w in
        let last : written ending ≡ packed rest =
          written-append (finish_request write_head w).1 (closes ∷ []) still
          ∙ append-nil (written (finish_request write_head w).1)
          ∙ k
          ∙ ap (λ x. packed (older_finish_request x).1) e in
        let all : written (acts ++ ending) ≡ packed (ps ++ rest) =
          written-append acts ending o ∙ ap₂ ◌++◌ h last ∙ sym (packed-append ps rest) in
        let ends : chosen_ending (acts ++ ending) ≡ some choked =
          ending-append acts ending o
          ∙ ending-append (finish_request write_head w).1 (closes ∷ []) still in
        (
          acts ++ ending,
          ps ++ rest,
          refl,
          refl,
          serve_ends_once event (acts ++ ending) none stack session
              ∙ ap₂
                  (λ bs e.
                    map (new_chunk_v1 session) bs
                    ++ ending_message session
                        (elim e [ some x ↦ x | none ↦ default_ending event none stack ])
                      ∷ [])
                  all ends,
          older_ops-encoded (ps ++ rest),
        )

  -- For every handler that returns, both writers return, and they make the same pieces, heads and
  -- bodies, in the same order. That of version 12 sends each piece in a chunk, a body as it is, and
  -- then a choke; that of the older protocol sends each piece, a body too, in a chunk as Response.Write
  -- encodes it, and then a choke.
  pub older_serve_same :
      (c : Codec) (us : Uuids) (encode : Piece → Bytes) (script : List HttpAct)
      (event stack : Bytes) (session : ℕ)
      → SameAnswer c us encode event stack session
          (serve_http write_head script)
          (older_serve script)
  unfolding serve_http older_serve Alike
  older_serve_same c us encode script event stack session =
      let (acts, sent, p, _, _, _) = serve_http_answers write_head script event stack session in
      let ((w, more), q, _) = >>=-eq-done (handle write_head script new_writer) _ p in
      let alike =
        subst (λ m. Alike m (older_handle script new_writer)) q (handle-Alike script new_writer) in
      subst
        (λ m.
          SameAnswer c us encode event stack session
            (m >>= λ r. done (r.1 ++ ((finish_request write_head r.0).1 ++ closes ∷ [])))
            (older_serve script))
        (sym q)
        (finished-SameAnswer c us encode event stack session w more (older_handle script new_writer)
          alike)
