-- ===== src/Service/Channel/Protocol.antt =====
-- The messages of a channel and the protocol trees of its method.
use cocaine_framework_go.Prelude.{
  ℕ, ◌≡◌, refl, sym, ap, ◌∙◌, subst, if◌then◌else◌, Bool, true, false, List, [], ◌∷◌, ◌++◌, arith,
  Option, ℤ, Bytes, Bool-cases, inl, inr,
}
use cocaine_framework_go.Errors.{Error, Result, ok, err}
use cocaine_framework_go.Effects.{Outcome, done, panic, ◌>>=◌, >>=-eq-done, nil_dereference}
use cocaine_framework_go.Message.{Value, Message}
use cocaine_framework_go.Service.Dispatch.{
  StreamDescription, nil, end, item, DispatchType, recursive_dispatch, empty_dispatch,
  other_dispatch, dispatch_type, method_by_name,
}
use cocaine_framework_go.Service.Channel.{
  ServiceResult, push, tree_entry, is_empty_type, advance, Tx, call, call_method, call_named,
}
use cocaine_framework_go.Service.Channel.Moves.{pushes, rx_run, rx_step}
use cocaine_framework_go.Service.Channel.Order.{new_rx}

-- What a tree allows: a sequence of methods that starts at it and takes, after each, the tree of
-- its description: the same one if that is nil, and none if that is empty.
pub data Follows : StreamDescription → List ℕ → Type 0 where
  starts : {t : StreamDescription} → Follows t []
  repeats :
      {t : StreamDescription} {m : ℕ} {ms : List ℕ} {name : Bytes}
      → tree_entry m t ≡ done (name, nil)
      → Follows t ms
      → Follows t (m ∷ ms)
  ends :
      {t next : StreamDescription} {m : ℕ} {name : Bytes}
      → tree_entry m t ≡ done (name, next)
      → dispatch_type next ≡ empty_dispatch
      → Follows t (m ∷ [])
  moves :
      {t next : StreamDescription} {m : ℕ} {ms : List ℕ} {name : Bytes}
      → tree_entry m t ≡ done (name, next)
      → dispatch_type next ≡ other_dispatch
      → Follows next ms
      → Follows t (m ∷ ms)

-- The calls of a client on one sender, with the messages that they sent and their errors.
unfoldable pub tx_run : List (Bytes × List Value) → Tx → Outcome (Tx × List Message)
tx_run [] tx = Outcome.done (tx, [])
tx_run ((name, args) ∷ cs) tx =
    call name args tx >>= λ r. tx_run cs r.0 >>= λ s. Outcome.done (s.0, r.1 ++ s.1)

abbrev pub methods : List Message → List ℕ
methods [] = []
methods (m ∷ ms) = m.msg_type ∷ methods ms

-- What is left to a sender.
record Allowed (tx : Tx) (ms : List ℕ) : Type 0 where
  closed : tx.done ≡ true → ms ≡ []
  live : tx.done ≡ false → Follows tx.tx_tree ms

Allowed-nil : (tx : Tx) → Allowed tx []
Allowed-nil tx = record { closed = λ _. refl; live = λ _. starts }

recursive-nil : (t : StreamDescription) → dispatch_type t ≡ recursive_dispatch → t ≡ nil
unfolding dispatch_type
recursive-nil nil h = refl
recursive-nil (StreamDescription.tree end) h = cc
recursive-nil (StreamDescription.tree (item n name d rest)) h = cc

-- A method of the tree before the methods that its description allows.
entry-Follows :
    (kind : DispatchType) (t next : StreamDescription) (m : ℕ) (ms : List ℕ) (name : Bytes)
    → dispatch_type next ≡ kind
    → tree_entry m t ≡ done (name, next)
    → (is_empty_type kind ≡ true → ms ≡ [])
    → (is_empty_type kind ≡ false → Follows (advance kind next t) ms)
    → Follows t (m ∷ ms)
unfolding advance
entry-Follows recursive_dispatch t next m ms name k h f g =
    repeats (h ∙ ap (λ x. done (name, x)) (recursive-nil next k)) (g refl)
entry-Follows empty_dispatch t next m ms name k h f g = rw (f refl) (ends h k)
entry-Follows other_dispatch t next m ms name k h f g = moves h k (g refl)

done_closed : (b d : Bool) → b ≡ true → (if b then true else d) ≡ true
done_closed b d h = ground arith

done_live : (b d : Bool) → b ≡ false → d ≡ false → (if b then true else d) ≡ false
done_live b d h k = ground arith

-- A call that sends: the rest of the methods continues from the new state.
call_method-Allowed :
    (method : ℕ) (args : List Value) (tx u : Tx) (out : List Message) (e : Option Error)
    (ms : List ℕ)
    → tx.done ≡ false
    → call_method method args tx ≡ done (u, out, e)
    → Allowed u ms
    → Follows tx.tx_tree (methods out ++ ms)
unfolding call_method
call_method-Allowed method args tx u out e ms d p a =
    let ((name, next), q, q') = >>=-eq-done (tree_entry method tx.tx_tree) _ p in
    let kind = dispatch_type next in
    let sent : methods out ++ ms ≡ method ∷ ms = ground (arith, q') in
    let ended : u.done ≡ (if is_empty_type kind then true else tx.done) = ground (arith, q') in
    let moved : u.tx_tree ≡ advance kind next tx.tx_tree = ground (arith, q') in
    rw sent (
      entry-Follows kind tx.tx_tree next method ms name refl q
        (λ h. a.closed (ended ∙ done_closed (is_empty_type kind) tx.done h))
        (λ h.
          subst (λ t. Follows t ms) moved
            (a.live (ended ∙ done_live (is_empty_type kind) tx.done h d))))

call-Allowed :
    (name : Bytes) (args : List Value) (tx u : Tx) (out : List Message) (e : Option Error)
    (ms : List ℕ)
    → call name args tx ≡ done (u, out, e)
    → Allowed u ms
    → Allowed tx (methods out ++ ms)
unfolding call
call-Allowed name args tx u out e ms p a = elim (Bool-cases tx.done) [
  | inl d ↦
      let same : tx ≡ u = ground arith in let empty : out ≡ [] = ground arith in rw (empty, same) a
  | inr d ↦ record { closed = λ h. cc; live = λ _. by_name d }
]
  where
    by_name : tx.done ≡ false → Follows tx.tx_tree (methods out ++ ms)
    by_name d =
        let (r, q, q') =
          >>=-eq-done (method_by_name name tx.tx_tree) (call_named args tx)
            (sym (call-live d) ∙ p) in
        by_result r q'
      where
        call-live :
            tx.done ≡ false
            → call name args tx ≡ (method_by_name name tx.tx_tree >>= call_named args tx)
        call-live d = rw d refl

        by_result :
            (r : Result ℕ)
            → call_named args tx r ≡ done (u, out, e)
            → Follows tx.tx_tree (methods out ++ ms)
        by_result (ok m) h = call_method-Allowed m args tx u out e ms d h a
        by_result (err x) h =
            let same : tx ≡ u = ground arith in
            let empty : out ≡ [] = ground arith in
            rw empty (
              subst (λ t. Follows t.tx_tree ms) (sym same)
                (a.live (subst (λ t. t.done ≡ false) same d)))

tx_run-Allowed :
    (cs : List (Bytes × List Value)) (tx u : Tx) (out : List Message)
    → tx_run cs tx ≡ done (u, out)
    → Allowed tx (methods out)
unfolding tx_run
tx_run-Allowed [] tx u out p = let empty : out ≡ [] = ground arith in rw empty (Allowed-nil tx)
tx_run-Allowed ((name, args) ∷ cs) tx u out p =
    let ((v, xs, e), q, q') =
      >>=-eq-done (call name args tx) (λ r. tx_run cs r.0 >>= λ s. done (s.0, r.1 ++ s.1)) p in
    let ((w, ys), r, r') = >>=-eq-done (tx_run cs v) (λ s. done (s.0, xs ++ s.1)) q' in
    let result : xs ++ ys ≡ out = ground (arith, r') in
    rw (sym result, methods-append xs ys)
      (call-Allowed name args tx v xs e (methods ys) q (tx_run-Allowed cs v w ys r))
  where
    methods-append : (xs ys : List Message) → methods (xs ++ ys) ≡ methods xs ++ methods ys
    methods-append [] ys = refl
    methods-append (x ∷ xs) ys = ap (◌∷◌ x.msg_type) (methods-append xs ys)

-- Whatever a client calls on a sender that is not done, if the calls return, the methods that reach
-- the service follow the sender's protocol tree: each is allowed by the tree that the last one led
-- to, and nothing follows the method that ends the stream.
pub tx-Follows :
    (cs : List (Bytes × List Value)) (tx u : Tx) (out : List Message)
    → tx.done ≡ false
    → tx_run cs tx ≡ done (u, out)
    → Follows tx.tx_tree (methods out)
tx-Follows cs tx u out d p = (tx_run-Allowed cs tx u out p).live d

-- Two results that the protocol allows one after the other: if the second one arrives before the
-- client has received the first and its method is not in the tree of the first, its delivery
-- panics in the service's loop.
pub push_ahead_panics :
    (convert : List Value → Result (ℤ × ℤ × Bytes)) (t next next' : StreamDescription)
    (r r' : ServiceResult) (name name' : Bytes)
    → tree_entry r.method t ≡ done (name, next)
    → dispatch_type next ≡ other_dispatch
    → tree_entry r'.method next ≡ done (name', next')
    → tree_entry r'.method t ≡ panic nil_dereference
    → Follows t (r.method ∷ r'.method ∷ [])
      × (rx_run convert (pushes r ∷ pushes r' ∷ []) (new_rx t) ≡ panic nil_dereference)
unfolding rx_run rx_step push
push_ahead_panics convert t next next' r r' name name' h k h' p = (
  moves h k (
      entry-Follows (dispatch_type next') next next' r'.method [] name' refl h' (λ _. refl)
        (λ _. starts)),
  rw (h, p) refl,
)
