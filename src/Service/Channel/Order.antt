-- ===== src/Service/Channel/Order.antt =====
-- Results in the order of their arrival, in any sequence of push and Get.
use cocaine_framework_go.Prelude.{
  ◌≡◌, refl, sym, ap, ◌∙◌, if◌then◌else◌, Bool, true, false, List, [], ◌∷◌, ◌++◌, append_assoc,
  append-nil, arith, Option, none, some, ℤ, Bytes,
}
use cocaine_framework_go.Errors.{Error, Result}
use cocaine_framework_go.Effects.{done, ◌>>=◌, >>=-eq-done}
use cocaine_framework_go.Message.{Value}
use cocaine_framework_go.Service.Dispatch.{StreamDescription, dispatch_type}
use cocaine_framework_go.Service.Channel.{
  ServiceResult, Rx, refill, push, tree_entry, is_empty_type, advance, takes, take_result,
  attach_error, finish_entry, finish_get, got, get,
}
use cocaine_framework_go.Service.Channel.Moves.{
  RxEvent, pushes, gets, plain, plains, one, waiting, arrived, all_arrived, rx_step, rx_run,
  plains-append, push-waiting, attach_error-plain, get-open, get-waiting,
}

module _ (convert : List Value → Result (ℤ × ℤ × Bytes)) where
  rx_step-waiting :
      (e : RxEvent) (rx u : Rx) (out : List ServiceResult)
      → rx_step convert e rx ≡ done (u, out)
      → plains out ++ plains (waiting u) ≡ plains (waiting rx) ++ plains (arrived e)
  unfolding rx_step
  rx_step-waiting (pushes r) rx u out p =
      let ((v, b), q, q') = >>=-eq-done (push r rx) (λ x. done (x.0, [])) p in
      let same : v ≡ u = ground (arith, q') in
      let empty : out ≡ [] = ground (arith, q') in
      rw (empty, sym same, push-waiting r rx v b q) (plains-append (waiting rx) (r ∷ []))
  rx_step-waiting (gets c) rx u out p =
      let ((v, o, e), q, q') = >>=-eq-done (get convert c rx) (λ x. done (x.0, one x.1)) p in
      let same : v ≡ u = ground (arith, q') in
      let result : one o ≡ out = ground (arith, q') in
      rw (sym same, sym result, append-nil (plains (waiting rx)))
        (sym (get-waiting convert c rx v o e q))

  rx_run-waiting :
      (es : List RxEvent) (rx u : Rx) (out : List ServiceResult)
      → rx_run convert es rx ≡ done (u, out)
      → plains out ++ plains (waiting u) ≡ plains (waiting rx) ++ plains (all_arrived es)
  unfolding rx_run
  rx_run-waiting [] rx u out p =
      let same : u ≡ rx = ground arith in
      let empty : out ≡ [] = ground arith in
      rw (empty, same) (sym (append-nil (plains (waiting rx))))
  rx_run-waiting (e ∷ es) rx u out p =
      let ((v, xs), q, q') =
        >>=-eq-done (rx_step convert e rx)
          (λ x. rx_run convert es x.0 >>= λ y. done (y.0, x.1 ++ y.1)) p in
      let ((w, ys), r, r') = >>=-eq-done (rx_run convert es v) (λ y. done (y.0, xs ++ y.1)) q' in
      let same : w ≡ u = ground (arith, r') in
      let result : xs ++ ys ≡ out = ground (arith, r') in
      let rest = rx_run-waiting es v w ys r in
      let first = rx_step-waiting e rx v xs q in
      rw (sym same, sym result)
        (ap (λ x. x ++ plains (waiting w)) (plains-append xs ys)
          ∙ append_assoc (plains xs) (plains ys) (plains (waiting w))
          ∙ ap (◌++◌ (plains xs)) rest
          ∙ sym (append_assoc (plains xs) (plains (waiting v)) (plains (all_arrived es)))
          ∙ ap (λ x. x ++ plains (all_arrived es)) first
          ∙ append_assoc (plains (waiting rx)) (plains (arrived e)) (plains (all_arrived es))
          ∙ ap (◌++◌ (plains (waiting rx))) (sym (plains-append (arrived e) (all_arrived es))))

-- The receiver that Service.call makes.
abbrev pub new_rx : StreamDescription → Rx
new_rx t = record { push_buffer = none; queue = []; rx_tree = t; id = 0; done = false }

-- In every sequence of push and Get on a new receiver whose calls all return, the results that Get
-- returned and then those that wait are the results that were pushed, in the order of their
-- arrival: none is lost, twice or reordered.
pub rx_fifo :
    (convert : List Value → Result (ℤ × ℤ × Bytes)) (t : StreamDescription) (es : List RxEvent)
    (u : Rx) (out : List ServiceResult)
    → rx_run convert es (new_rx t) ≡ done (u, out)
    → plains out ++ plains (waiting u) ≡ plains (all_arrived es)
rx_fifo convert t es u out p = rx_run-waiting convert es (new_rx t) u out p

-- With a result waiting, Get receives the oldest one.
take_oldest :
    (rx : Rx) (r : ServiceResult) (rest : List ServiceResult)
    → waiting rx ≡ r ∷ rest
    → (v : Rx) × (take_result takes rx ≡ done (v, some r))
      × (waiting v ≡ rest)
      × (tree_entry r.method v.rx_tree ≡ tree_entry r.method rx.rx_tree)
      × (v.done ≡ rx.done)
unfolding take_result refill
take_oldest rx r rest w =
    (record rx { push_buffer = none; queue = rest }, ground arith, refl, refl, refl)

finish_get-entry :
    (convert : List Value → Result (ℤ × ℤ × Bytes)) (v : Rx) (r : ServiceResult) (name : Bytes)
    (next : StreamDescription)
    → tree_entry r.method v.rx_tree ≡ done (name, next)
    → finish_get convert v r ≡ finish_entry convert v r (name, next)
unfolding finish_get
finish_get-entry convert v r name next h = ap (λ m. m >>= finish_entry convert v r) h

done_after : (b d : Bool) → d ≡ false → (if b then true else d) ≡ b
done_after b d h = ground arith

-- While the stream is open and a result waits whose method the tree has, Get returns the oldest
-- one, and leaves the others; after the method that ends the stream, the stream is closed.
pub get_delivers :
    (convert : List Value → Result (ℤ × ℤ × Bytes)) (rx : Rx) (r : ServiceResult)
    (rest : List ServiceResult) (name : Bytes) (next : StreamDescription)
    → rx.done ≡ false
    → waiting rx ≡ r ∷ rest
    → tree_entry r.method rx.rx_tree ≡ done (name, next)
    → (u : Rx) × (r' : ServiceResult) × (e : Option Error) × (get convert takes rx
        ≡ done (u, some r', e))
      × (plain r' ≡ plain r)
      × (waiting u ≡ rest)
      × (u.done ≡ is_empty_type (dispatch_type next))
get_delivers convert rx r rest name next d w t =
    let (v, q, w', t', d') = take_oldest rx r rest w in
    let (r', e) = attach_error convert name r in
    let stays : v.done ≡ false = d' ∙ d in
    (
      (record v {
        done = if is_empty_type (dispatch_type next) then true else v.done;
        rx_tree = advance (dispatch_type next) next v.rx_tree;
      }),
      r',
      e,
      get-open convert takes rx d
          ∙ ap (λ x. x >>= got convert) q
          ∙ finish_get-entry convert v r name next (t' ∙ t),
      attach_error-plain convert name r,
      w',
      done_after (is_empty_type (dispatch_type next)) v.done stays,
    )
