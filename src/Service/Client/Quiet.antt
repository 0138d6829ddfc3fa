-- ===== src/Service/Client/Quiet.antt =====
-- What a service keeps while results are delivered to its channels.
use cocaine_framework_go.Prelude.{
  ℕ, zero, suc, ◌≡◌, refl, sym, ap, ◌∙◌, subst, ◌==◌, Bytes, List, [], ◌∷◌, Option, none, some,
  get_elem?, set, arith, Bool-cases, Option-cases, inl, inr, ℤ,
}
use cocaine_framework_go.Errors.{Result}
use cocaine_framework_go.Effects.{done, ◌>>=◌, >>=-eq-done}
use cocaine_framework_go.Message.{Value}
use cocaine_framework_go.Service.Sessions
use cocaine_framework_go.Service.Sessions.{Sessions, detach, session_keys}
use cocaine_framework_go.Service.Channel
use cocaine_framework_go.Service.Channel.{
  ServiceResult, Rx, Tx, GetChoice, push, tree_entry, call_method, call_named,
}
use cocaine_framework_go.Service.Client.{
  Service, pushed, deliver, push_to, push_to_all, push_disconnected_error, disconnected_error,
  loop_end, received_by, channel_get,
}

-- The session numbers of the senders.
abbrev pub ids : List (Rx × Tx) → List ℕ
ids [] = []
ids (ch ∷ chs) = ch.1.id ∷ ids chs

pub record IsQuiet (s t : Service) : Type 0 where
  pub sent : t.sent ≡ s.sent
  pub counter : t.sessions.counter ≡ s.sessions.counter
  pub ids : ids t.channels ≡ ids s.channels
  pub stop_closed : t.stop_closed ≡ s.stop_closed
  pub is_closed : t.is_closed ≡ s.is_closed

pub IsQuiet-refl : (s : Service) → IsQuiet s s
IsQuiet-refl s = record {
  sent = refl;
  counter = refl;
  ids = refl;
  stop_closed = refl;
  is_closed = refl;
}

pub IsQuiet-trans : {s t u : Service} → IsQuiet s t → IsQuiet t u → IsQuiet s u
IsQuiet-trans p q = record {
  sent = q.sent ∙ p.sent;
  counter = q.counter ∙ p.counter;
  ids = q.ids ∙ p.ids;
  stop_closed = q.stop_closed ∙ p.stop_closed;
  is_closed = q.is_closed ∙ p.is_closed;
}

pub ids-set :
    (chs : List (Rx × Tx)) (c : ℕ) (ch ch' : Rx × Tx)
    → get_elem? chs c ≡ some ch
    → ch'.1.id ≡ ch.1.id
    → ids (set chs c ch') ≡ ids chs
ids-set [] c ch ch' p q = refl
ids-set (x ∷ chs) zero ch ch' p q =
    let same : x ≡ ch = ground arith in ap (λ i. i ∷ ids chs) (q ∙ ap (λ y. y.1.id) (sym same))
ids-set (x ∷ chs) (suc c) ch ch' p q = ap (◌∷◌ x.1.id) (ids-set chs c ch ch' p q)

pub deliver-found :
    (c : ℕ) (res : ServiceResult) (s : Service) (ch : Rx × Tx)
    → get_elem? s.channels c ≡ some ch
    → deliver c res s ≡ (push res ch.0 >>= pushed c s ch)
unfolding deliver
deliver-found c res s ch e = rw (e, deliver) refl

pub push_to-linked :
    (res : ServiceResult) (session c : ℕ) (s : Service)
    → Sessions.get session s.sessions ≡ some c
    → push_to res session s ≡ deliver c res s
unfolding push_to
push_to-linked res session c s e = rw (e, push_to) refl

pub deliver-IsQuiet :
    (c : ℕ) (res : ServiceResult) (s t : Service) → deliver c res s ≡ done t → IsQuiet s t
unfolding deliver detach
deliver-IsQuiet c res s t p = elim (Option-cases (get_elem? s.channels c)) [
  | inl e ↦ cc
  | inr (ch, e) ↦
      let ((rx, ends), q, q') =
        >>=-eq-done (push res ch.0) (pushed c s ch) (sym (deliver-found c res s ch e) ∙ p) in
      let channels : set s.channels c (rx, ch.1) ≡ t.channels = ground (arith, q') in
      record {
        sent = ground (arith, q');
        counter = ground (arith, q');
        ids = ap ids (sym channels) ∙ ids-set s.channels c ch (rx, ch.1) e refl;
        stop_closed = ground (arith, q');
        is_closed = ground (arith, q');
      }
]

pub push_to-IsQuiet :
    (res : ServiceResult) (session : ℕ) (s t : Service)
    → push_to res session s ≡ done t
    → IsQuiet s t
unfolding push_to
push_to-IsQuiet res session s t p = by_link (Sessions.get session s.sessions) refl
  where
    by_link : (o : Option ℕ) → Sessions.get session s.sessions ≡ o → IsQuiet s t
    by_link none e = let same : s ≡ t = ground arith in subst (IsQuiet s) same (IsQuiet-refl s)
    by_link (some c) e = deliver-IsQuiet c res s t (ground arith)

pub push_to_all-IsQuiet :
    (res : ServiceResult) (keys : List ℕ) (s t : Service)
    → push_to_all res keys s ≡ done t
    → IsQuiet s t
unfolding push_to_all
push_to_all-IsQuiet res [] s t p =
    let same : s ≡ t = ground arith in subst (IsQuiet s) same (IsQuiet-refl s)
push_to_all-IsQuiet res (key ∷ keys) s t p =
    let (u, q, q') = >>=-eq-done (push_to res key s) (push_to_all res keys) p in
    IsQuiet-trans (push_to-IsQuiet res key s u q) (push_to_all-IsQuiet res keys u t q')

pub disconnect-IsQuiet : (s t : Service) → push_disconnected_error s ≡ done t → IsQuiet s t
unfolding push_disconnected_error
disconnect-IsQuiet s t p = push_to_all-IsQuiet disconnected_error (session_keys s.sessions) s t p

pub loop_end-IsQuiet : (epoch : ℕ) (s t : Service) → loop_end epoch s ≡ done t → IsQuiet s t
unfolding loop_end
loop_end-IsQuiet epoch s t p = elim (Bool-cases (epoch == s.epoch)) [
  | inl e ↦ disconnect-IsQuiet s t (ground arith)
  | inr e ↦ let same : s ≡ t = ground arith in subst (IsQuiet s) same (IsQuiet-refl s)
]

pub channel_get-IsQuiet :
    (convert : List Value → Result (ℤ × ℤ × Bytes)) (c : ℕ) (choice : GetChoice) (s t : Service)
    → channel_get convert c choice s ≡ done t
    → IsQuiet s t
unfolding channel_get
channel_get-IsQuiet convert c choice s t p = elim (Option-cases (get_elem? s.channels c)) [
  | inl e ↦ cc
  | inr (ch, e) ↦
      let ((rx, res, x), q, q') =
        >>=-eq-done (Channel.get convert choice ch.0) (received_by c ch.1 s)
          (sym (found ch e) ∙ p) in
      let channels : set s.channels c (rx, ch.1) ≡ t.channels = ground (arith, q') in
      record {
        sent = ground (arith, q');
        counter = ground (arith, q');
        ids = ap ids (sym channels) ∙ ids-set s.channels c ch (rx, ch.1) e refl;
        stop_closed = ground (arith, q');
        is_closed = ground (arith, q');
      }
]
  where
    found :
        (ch : Rx × Tx)
        → get_elem? s.channels c ≡ some ch
        → channel_get convert c choice s
          ≡ (Channel.get convert choice ch.0 >>= received_by c ch.1 s)
    found ch e = rw (e, channel_get) refl
