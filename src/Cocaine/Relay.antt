-- ===== src/Cocaine/Relay.antt =====
-- cocaine/worker.go: types Request and Response. Both have a goroutine that keeps what it was given
-- until somebody takes it, and that ends once it was told to quit and nothing is left.
pub mod Order
use cocaine_framework_go.Prelude.{
  if◌then◌else◌, Bytes, ℤ, pos, negsuc, bytes, Bool, true, false, ◌&&◌, List, [], ◌∷◌, ◌++◌, Option,
  none, some,
}
use cocaine_framework_go.Effects.{Outcome, done, blocked, ◌>>=◌}
use cocaine_framework_go.Cocaine.Message.{
  MessageInterface, chunk, choke, error_msg, info, type_chunk, type_choke, type_error, Uuids,
}
use cocaine_framework_go.Cocaine.Message.Feed.{Codec, pack_msg}

-- The variables of the goroutine. What it keeps is data of a client (Request) or packed messages
-- of a handler (Response).
pub record Relay : Type 0 where
  pub pending : List Bytes
  pub quit : Bool
  -- the goroutine has returned
  pub ended : Bool

abbrev pub new_request : Relay
new_request = record { pending = []; quit = false; ended = false }

abbrev is_empty {ℓ} : {A : Type ℓ} → List A → Bool
is_empty [] = true
is_empty (x ∷ xs) = false

-- The head of a round.
unfoldable pub relay_round : Relay → Relay
relay_round r = if is_empty r.pending && r.quit then record r { ended = true } else r

-- `case incoming := <-request.from_worker`, with the sender of the data.
unfoldable pub request_push : Bytes → Relay → Outcome Relay
unfolding relay_round
request_push incoming r =
    if r.ended
    then blocked
    else done (relay_round (record r { pending = r.pending ++ incoming ∷ [] }))

-- `case <-request.quit`, with the sender.
unfoldable pub request_close : Relay → Outcome Relay
unfolding relay_round
request_close r = if r.ended then blocked else done (relay_round (record r { quit = true }))

-- `case out <- first`, with the receiver.
unfoldable pub relay_take : Relay → Outcome (Relay × List Bytes)
unfolding relay_round
relay_take r = if r.ended then blocked else elim r.pending [
  | [] ↦ blocked
  | first ∷ rest ↦ done (relay_round (record r { pending = rest }), first ∷ [])
]

-- The goroutine of a response has the same rounds, with from_handler, to_worker and its own quit.
pub record Response : Type 0 where
  pub session : ℤ
  pub relay : Relay

abbrev pub new_response : ℤ → Response
new_response session = record { session = session; relay = new_request }

-- What a method of a response does: it sends to from_handler, or to quit.
pub data ResponseOp : Type 0 where
  gives : Bytes → ResponseOp
  quits : ResponseOp

module _ (c : Codec) (us : Uuids) (session : ℤ) where
  -- The data is what the codec made of the value.
  unfoldable pub response_write : Bytes → List ResponseOp
  unfolding pack_msg
  response_write res = gives (pack_msg c us (chunk (info type_chunk session) res)) ∷ []

  unfoldable pub response_close : List ResponseOp
  unfolding pack_msg
  response_close = gives (pack_msg c us (choke (info type_choke session))) ∷ quits ∷ []

  unfoldable pub response_error_msg : ℤ → Bytes → List ResponseOp
  unfolding pack_msg
  response_error_msg code msg =
      gives (pack_msg c us (error_msg (info type_error session) code msg)) ∷ []

  -- The text is fmt.Sprintf's, which starts like this.
  unfoldable pub default_fallback : Bytes → List ResponseOp
  unfolding response_error_msg response_close
  default_fallback event =
      response_error_msg (negsuc 99) (bytes "There is no event handler for " ++ event)
      ++ response_close

  -- What a handler calls on its response, and whether it panics in the end. A panic of the
  -- handler of an event is reported, one of the fallback only closes the stream.
  unfoldable pub callback_ops : List ResponseOp → Option Bytes → List ResponseOp
  unfolding response_error_msg response_close
  callback_ops ops none = ops
  callback_ops ops (some message) = ops ++ (response_error_msg (pos 1) message ++ response_close)

  unfoldable pub fallback_ops : List ResponseOp → Bool → List ResponseOp
  unfolding response_close
  fallback_ops ops panics = if panics then ops ++ response_close else ops

-- One send of a handler.
unfoldable pub response_op : ResponseOp → Response → Outcome Response
unfolding request_push request_close
response_op (gives packed) r =
    request_push packed r.relay >>= λ relay. done (record r { relay = relay })
response_op quits r = request_close r.relay >>= λ relay. done (record r { relay = relay })

-- A handler's sends and the worker's receives, in any order, with what the worker received.
pub data ResponseEvent : Type 0 where
  does : ResponseOp → ResponseEvent
  worker_takes : ResponseEvent

unfoldable pub response_step :
    ResponseEvent → Response × List Bytes → Outcome (Response × List Bytes)
unfolding response_op relay_take
response_step (does op) (r, got) = response_op op r >>= λ r'. done (r', got)
response_step worker_takes (r, got) =
    relay_take r.relay >>= λ (relay, first). done (record r { relay = relay }, got ++ first)

unfoldable pub response_run :
    List ResponseEvent → Response × List Bytes → Outcome (Response × List Bytes)
unfolding response_step
response_run [] s = done s
response_run (e ∷ es) s = response_step e s >>= response_run es
