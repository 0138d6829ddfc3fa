-- ===== src/Service/Client/Opened.antt =====
-- The sessions that messages open, and a call that opens one.
use cocaine_framework_go.Prelude.{
  ℕ, suc, ◌≡◌, ◌≤◌, ◌<◌, ◌^◌, refl, sym, ap, ◌∙◌, if◌then◌else◌, ◌==◌, leb, Bytes, List, [], ◌∷◌,
  ◌++◌, Option, none, some, arith, All, All-append,
}
use cocaine_framework_go.Errors.{Result, ok, err}
use cocaine_framework_go.Message.{Value, Message}
use cocaine_framework_go.Service.Dispatch.{api_method}
use cocaine_framework_go.Service.Sessions.{attach, next_counter}
use cocaine_framework_go.Service.Channel.{Rx, Tx}
use cocaine_framework_go.Service.Client.{Service, send_msg, open_channel, service_call}
use cocaine_framework_go.Service.Client.Quiet.{ids, IsQuiet, IsQuiet-refl}

-- The other side knows the sessions up to n; a message belongs to one of them, or opens the next.
abbrev pub next_opened : ℕ → Message → Option ℕ
next_opened n m =
    if leb m.session n then some n else if m.session == suc n then some (suc n) else none

abbrev pub opened : ℕ → List Message → Option ℕ
opened n [] = some n
opened n (m ∷ ms) = elim (next_opened n m) [ none ↦ none | some k ↦ opened k ms ]

pub opened-append :
    (n k : ℕ) (xs ys : List Message) → opened n xs ≡ some k → opened n (xs ++ ys) ≡ opened k ys
opened-append n k [] ys p = let same : n ≡ k = ground arith in rw same refl
opened-append n k (m ∷ xs) ys p = by_next (next_opened n m) (λ j h. opened-append j k xs ys h) p
  where
    by_next :
        (o : Option ℕ)
        → ((j : ℕ) → opened j xs ≡ some k → opened j (xs ++ ys) ≡ opened k ys)
        → (elim o [ none ↦ none | some j ↦ opened j xs ]) ≡ some k
        → (elim o [ none ↦ none | some j ↦ opened j (xs ++ ys) ]) ≡ opened k ys
    by_next none rest q = cc
    by_next (some j) rest q = rest j q

pub opened-known : (n : ℕ) (ms : List Message) → All (λ m. m.session ≤ n) ms → opened n ms ≡ some n
opened-known n [] h = refl
opened-known n (m ∷ ms) (h, hs) = ground (arith, opened-known n ms hs)

pub record IsOrdered (s : Service) : Type 0 where
  pub sends : opened 1 s.sent ≡ some s.sessions.counter
  pub known : All (λ i. i ≤ s.sessions.counter) (ids s.channels)

pub quiet-IsOrdered : {s t : Service} → IsQuiet s t → IsOrdered s → IsOrdered t
quiet-IsOrdered q v = record {
  sends = ap (opened 1) q.sent ∙ v.sends ∙ ap some (sym q.counter);
  known = rw (q.ids, q.counter) v.known;
}

ids-append : (xs ys : List (Rx × Tx)) → ids (xs ++ ys) ≡ ids xs ++ ids ys
ids-append [] ys = refl
ids-append (x ∷ xs) ys = ap (◌∷◌ x.1.id) (ids-append xs ys)

All-weaken : (n k : ℕ) (is : List ℕ) → n ≤ k → All (λ i. i ≤ n) is → All (λ i. i ≤ k) is
All-weaken n k [] h a = tt
All-weaken n k (i ∷ is) h (a, b) = (omega arith, All-weaken n k is h b)

-- The counter grows by at most one, and the order is kept.
pub record Grows (s t : Service) : Type 0 where
  pub order : IsOrdered t
  pub counter : t.sessions.counter ≤ suc s.sessions.counter

pub quiet-Grows : (s t : Service) → IsQuiet s t → IsOrdered s → Grows s t
quiet-Grows s t q v =
    let c = q.counter in record { order = quiet-IsOrdered q v; counter = omega arith }

next_counter-small : (n : ℕ) → suc n < 2 ^ 64 → next_counter n ≡ suc n
next_counter-small n h = omega arith

-- A message that opens the next session.
opened-next :
    (n : ℕ) (ms : List Message) (m : Message)
    → opened 1 ms ≡ some n
    → m.session ≡ suc n
    → opened 1 (ms ++ m ∷ []) ≡ some (suc n)
opened-next n ms m h k = opened-append 1 n ms (m ∷ []) h ∙ ground arith

open_channel-Grows :
    (method : ℕ) (args headers : List Value) (s : Service)
    → suc s.sessions.counter < 2 ^ 64
    → IsOrdered s
    → Grows s (open_channel method args headers s).0
unfolding open_channel attach send_msg
open_channel-Grows method args headers s b v =
    let n = s.sessions.counter in
    let next = next_counter-small n b in
    record {
      order = record {
        sends = opened-next n s.sent _ v.sends next ∙ ap some (sym next);
        known =
            let old = All-weaken n (next_counter n) (ids s.channels) (omega arith) v.known in
            rw (ids-append s.channels) (
              All-append (λ i. i ≤ next_counter n) (ids s.channels) (next_counter n ∷ []) old
                (omega arith, tt));
      };
      counter = omega arith;
    }

pub service_call-Grows :
    (name : Bytes) (args headers : List Value) (s : Service)
    → suc s.sessions.counter < 2 ^ 64
    → IsOrdered s
    → Grows s (service_call name args headers s).0
unfolding service_call
service_call-Grows name args headers s b v = by_method (api_method name s.api) refl
  where
    by_method :
        (r : Result ℕ) → api_method name s.api ≡ r → Grows s (service_call name args headers s).0
    by_method (err e) h = rw (h, service_call) (quiet-Grows s s (IsQuiet-refl s) v)
    by_method (ok m) h = rw (h, service_call) (open_channel-Grows m args headers s b v)
