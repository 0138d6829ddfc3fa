-- ===== src/Service/Channel/Moves.antt =====
-- What one push or Get does to the results that wait.
use cocaine_framework_go.Prelude.{
  ℕ, ◌≡◌, refl, sym, ap, ◌∙◌, Bool, false, List, [], ◌∷◌, ◌++◌, append_assoc, arith, Option, none,
  some, ℤ, Bytes, Bool-cases, inl, inr,
}
use cocaine_framework_go.Errors.{Error, Result}
use cocaine_framework_go.Effects.{Outcome, done, panic, blocked, ◌>>=◌, >>=-eq-done}
use cocaine_framework_go.Message.{Value}
use cocaine_framework_go.Service.Dispatch.{StreamDescription, dispatch_type}
use cocaine_framework_go.Service.Channel.{
  ServiceResult, Rx, refill, push, tree_entry, is_empty_type, GetChoice, take_result, attach_error,
  finish_entry, finish_get, got, get,
}

pub data RxEvent : Type 0 where
  pushes : ServiceResult → RxEvent
  gets : GetChoice → RxEvent

-- A result without the error that Get may attach.
abbrev pub Plain : Type 0
Plain = ℕ × List Value

abbrev pub plain : ServiceResult → Plain
plain r = (r.method, r.payload)

abbrev pub plains : List ServiceResult → List Plain
plains [] = []
plains (r ∷ rs) = plain r ∷ plains rs

abbrev pub one {ℓ} : {A : Type ℓ} → Option A → List A
one none = []
one (some a) = a ∷ []

-- What waits in a receiver, the oldest first.
abbrev pub waiting : Rx → List ServiceResult
waiting rx = one rx.push_buffer ++ rx.queue

abbrev pub arrived : RxEvent → List ServiceResult
arrived (pushes r) = r ∷ []
arrived (gets c) = []

abbrev pub all_arrived : List RxEvent → List ServiceResult
all_arrived [] = []
all_arrived (e ∷ es) = arrived e ++ all_arrived es

module _ (convert : List Value → Result (ℤ × ℤ × Bytes)) where
  -- One call, with the result that it returned.
  unfoldable pub rx_step : RxEvent → Rx → Outcome (Rx × List ServiceResult)
  rx_step (pushes r) rx = push r rx >>= λ x. Outcome.done (x.0, [])
  rx_step (gets c) rx = get convert c rx >>= λ x. Outcome.done (x.0, one x.1)

  unfoldable pub rx_run : List RxEvent → Rx → Outcome (Rx × List ServiceResult)
  rx_run [] rx = Outcome.done (rx, [])
  rx_run (e ∷ es) rx = rx_step e rx >>= λ x. rx_run es x.0 >>= λ y. Outcome.done (y.0, x.1 ++ y.1)

pub plains-append : (xs ys : List ServiceResult) → plains (xs ++ ys) ≡ plains xs ++ plains ys
plains-append [] ys = refl
plains-append (x ∷ xs) ys = ap (◌∷◌ (plain x)) (plains-append xs ys)

refill-waiting : (rx : Rx) → waiting (refill rx) ≡ waiting rx
unfolding refill
refill-waiting rx = ground arith

pub push-waiting :
    (r : ServiceResult) (rx u : Rx) (b : Bool)
    → push r rx ≡ done (u, b)
    → waiting u ≡ waiting rx ++ r ∷ []
unfolding push
push-waiting r rx u b p =
    let (entry, q, q') =
      >>=-eq-done (tree_entry r.method rx.rx_tree)
        (λ entry. done (
          refill (record rx { queue = rx.queue ++ r ∷ [] }),
          is_empty_type (dispatch_type entry.1),
        ))
        p in
    let same : refill (record rx { queue = rx.queue ++ r ∷ [] }) ≡ u = ground (arith, q') in
    ap waiting (sym same)
    ∙ refill-waiting (record rx { queue = rx.queue ++ r ∷ [] })
    ∙ sym (append_assoc (one rx.push_buffer) rx.queue (r ∷ []))

take_result-waiting :
    (c : GetChoice) (rx u : Rx) (o : Option ServiceResult)
    → take_result c rx ≡ done (u, o)
    → waiting rx ≡ one o ++ waiting u
unfolding take_result refill
take_result-waiting c rx u o p = ground arith

module _ (convert : List Value → Result (ℤ × ℤ × Bytes)) where
  pub attach_error-plain :
      (name : Bytes) (r : ServiceResult) → plain (attach_error convert name r).0 ≡ plain r
  unfolding attach_error
  attach_error-plain name r = ground arith

  finish_get-waiting :
      (rx u : Rx) (r : ServiceResult) (o : Option ServiceResult) (e : Option Error)
      → finish_get convert rx r ≡ done (u, o, e)
      → (waiting u ≡ waiting rx) × (plains (one o) ≡ plain r ∷ [])
  unfolding finish_get
  finish_get-waiting rx u r o e p = by_entry (tree_entry r.method rx.rx_tree) p
    where
      by_entry :
          (m : Outcome (Bytes × StreamDescription))
          → (m >>= finish_entry convert rx r) ≡ done (u, o, e)
          → (waiting u ≡ waiting rx) × (plains (one o) ≡ plain r ∷ [])
      by_entry (done (name, next)) q = ground (arith, attach_error-plain name r)
      by_entry (panic x) q = cc
      by_entry blocked q = cc

  pub get-open :
      (c : GetChoice) (rx : Rx)
      → rx.done ≡ false
      → get convert c rx ≡ (take_result c rx >>= got convert)
  unfolding get
  get-open c rx d = rw d refl

  pub get-waiting :
      (c : GetChoice) (rx u : Rx) (o : Option ServiceResult) (e : Option Error)
      → get convert c rx ≡ done (u, o, e)
      → plains (waiting rx) ≡ plains (one o) ++ plains (waiting u)
  unfolding get
  get-waiting c rx u o e p = elim (Bool-cases rx.done) [
    | inl d ↦ ground arith
    | inr d ↦
        let ((v, w), q, q') =
          >>=-eq-done (take_result c rx) (got convert) (sym (get-open c rx d) ∙ p) in
        by_result v w q q'
  ]
    where
      by_result :
          (v : Rx) (w : Option ServiceResult)
          → take_result c rx ≡ done (v, w)
          → got convert (v, w) ≡ done (u, o, e)
          → plains (waiting rx) ≡ plains (one o) ++ plains (waiting u)
      by_result v none q r =
          let same : v ≡ u = ground (arith, r) in
          let gone : o ≡ none = ground (arith, r) in
          rw gone (ap plains (take_result-waiting c rx v none q ∙ ap waiting same))
      by_result v (some x) q r =
          let (k, k') = finish_get-waiting v u x o e r in
          rw (take_result-waiting c rx v (some x) q, k', sym k) refl
