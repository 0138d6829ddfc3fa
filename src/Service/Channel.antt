-- ===== src/Service/Channel.antt =====
-- cocaine12/channel.go: the two directions of a channel. The hooks for tracing only log, and are
-- left out.
pub mod Moves
pub mod Order
pub mod Protocol
use cocaine_framework_go.Prelude.{
  ℕ, if◌then◌else◌, Bytes, bytes, bytes_eq, ℤ, Bool, true, false, List, [], ◌∷◌, ◌++◌, Option, none,
  some,
}
use cocaine_framework_go.Errors.{
  Error, Result, ok, err, stream_is_closed, context_done, tx_is_done, request,
}
use cocaine_framework_go.Effects.{Outcome, done, panic, blocked, ◌>>=◌, nil_dereference}
use cocaine_framework_go.Message.{Value, Message}
use cocaine_framework_go.Service.Dispatch.{
  StreamDescription, nil, tree, DispatchType, recursive_dispatch, empty_dispatch, other_dispatch,
  dispatch_type, find_item, method_by_name,
}

-- serviceRes
pub record ServiceResult : Type 0 where
  pub method : ℕ
  pub payload : List Value
  pub error : Option Error

-- Its ExtractTuple, over the conversion of a payload.
unfoldable pub extract {ℓ} : {A : Type ℓ} → (List Value → Result A) → ServiceResult → Result A
extract convert res = elim res.error [ some e ↦ err e | none ↦ convert res.payload ]

pub record Rx : Type 0 where
  -- the channel with room for one result, and the queue behind it
  pub push_buffer : Option ServiceResult
  pub queue : List ServiceResult
  pub rx_tree : StreamDescription
  pub id : ℕ
  pub done : Bool

-- treeMap[method] of the tree that a pointer leads to, with its fields: both may be nil.
unfoldable pub tree_entry : ℕ → StreamDescription → Outcome (Bytes × StreamDescription)
tree_entry method nil = panic nil_dereference
tree_entry method (tree items) = elim (find_item method items) [
  | none ↦ panic nil_dereference
  | some entry ↦ Outcome.done entry
]

-- The head of the queue moves into the buffer if that is free.
unfoldable pub refill : Rx → Rx
refill rx = elim rx.push_buffer [
  | some r ↦ rx
  | none ↦ elim rx.queue [
    | [] ↦ rx
    | first ∷ rest ↦ record rx { push_buffer = some first; queue = rest }
  ]
]

-- Whether the session of the result's channel is to be detached.
abbrev pub is_empty_type : DispatchType → Bool
is_empty_type empty_dispatch = true
is_empty_type _ = false

unfoldable pub push : ServiceResult → Rx → Outcome (Rx × Bool)
unfolding refill
push res rx = tree_entry res.method rx.rx_tree >>= λ entry.
    Outcome.done
      (refill (record rx { queue = rx.queue ++ res ∷ [] }), is_empty_type (dispatch_type entry.1))

-- The select of Get that waits: it receives, or the context ends.
pub data GetChoice : Type 0 where
  takes gives_up : GetChoice

-- The result that Get receives, if any, and the receiver after it.
unfoldable pub take_result : GetChoice → Rx → Outcome (Rx × Option ServiceResult)
unfolding refill
take_result choice rx = elim rx.push_buffer [
  | some res ↦ Outcome.done (record rx { push_buffer = none }, some res)
  | none ↦ elim choice [
    | gives_up ↦ Outcome.done (refill rx, none)
    | takes ↦ elim (refill rx).push_buffer [
      | none ↦ blocked
      | some res ↦ Outcome.done (record (refill rx) { push_buffer = none }, some res)
    ]
  ]
]

-- rxTree and txTree after a method.
unfoldable pub advance : DispatchType → StreamDescription → StreamDescription → StreamDescription
advance recursive_dispatch next current = current
advance empty_dispatch next current = current
advance other_dispatch next current = next

module _ (convert : List Value → Result (ℤ × ℤ × Bytes)) where
  -- The switch on the name of the method: a result of the method `error` becomes an ErrRequest.
  unfoldable pub attach_error : Bytes → ServiceResult → ServiceResult × Option Error
  unfolding extract
  attach_error name res =
      if bytes_eq name (bytes "error")
      then (elim (extract convert res) [
        | err e ↦ (res, some e)
        | ok (category, code, message) ↦
            (record res { error = some (request category code message) }, none)
      ])
      else (res, none)

  -- What Get does with a result, and the tree's entry of its method.
  abbrev pub finish_entry :
      Rx
      → ServiceResult
      → Bytes × StreamDescription
      → Outcome (Rx × Option ServiceResult × Option Error)
  finish_entry rx res (name, next) =
      let kind = dispatch_type next in
      let (res', e) = attach_error name res in
      Outcome.done (
        record rx {
          done = if is_empty_type kind then true else rx.done;
          rx_tree = advance kind next rx.rx_tree;
        },
        some res',
        e,
      )

  unfoldable pub finish_get :
      Rx → ServiceResult → Outcome (Rx × Option ServiceResult × Option Error)
  unfolding attach_error advance
  finish_get rx res = tree_entry res.method rx.rx_tree >>= finish_entry rx res

  abbrev pub got : Rx × Option ServiceResult → Outcome (Rx × Option ServiceResult × Option Error)
  got (rx, none) = Outcome.done (rx, none, some context_done)
  got (rx, some res) = finish_get rx res

  unfoldable pub get : GetChoice → Rx → Outcome (Rx × Option ServiceResult × Option Error)
  unfolding take_result
  get choice rx =
      if rx.done
      then Outcome.done (rx, none, some stream_is_closed)
      else take_result choice rx >>= got

pub record Tx : Type 0 where
  pub tx_tree : StreamDescription
  pub id : ℕ
  pub done : Bool
  pub headers : List Value

-- What Call does once it knows the method.
unfoldable pub call_method : ℕ → List Value → Tx → Outcome (Tx × List Message × Option Error)
unfolding advance
call_method method args tx = tree_entry method tx.tx_tree >>= λ entry.
    let kind = dispatch_type entry.1 in
    Outcome.done (
      record tx {
        done = if is_empty_type kind then true else tx.done;
        tx_tree = advance kind entry.1 tx.tx_tree;
      },
      record { session = tx.id; msg_type = method; payload = args; headers = tx.headers } ∷ [],
      none,
    )

abbrev pub call_named : List Value → Tx → Result ℕ → Outcome (Tx × List Message × Option Error)
call_named args tx (err e) = Outcome.done (tx, [], some e)
call_named args tx (ok method) = call_method method args tx

-- tx.Call: the new sender, what it hands to the service, and its error.
unfoldable pub call : Bytes → List Value → Tx → Outcome (Tx × List Message × Option Error)
unfolding call_method
call name args tx =
    if tx.done
    then Outcome.done (tx, [], some tx_is_done)
    else method_by_name name tx.tx_tree >>= call_named args tx
