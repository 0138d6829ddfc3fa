-- ===== src/Service/Client/Routing.antt =====
-- Where a message of the other side goes.
use cocaine_framework_go.Prelude.{
  ℕ, ◌≡◌, ◌≢◌, refl, ap, ◌∙◌, Bytes, if◌then◌else◌, List, [], ◌∷◌, ◌++◌, none, some, get_elem?, set,
  get_elem?-set_self, get_elem?-set_ne, get_elem?-some_lt, arith,
}
use cocaine_framework_go.Prelude.Maps.{lookup, keys}
use cocaine_framework_go.Effects.{done, panic, Panic, ◌>>=◌}
use cocaine_framework_go.Message.{Message}
use cocaine_framework_go.Service.Dispatch.{StreamDescription, dispatch_type}
use cocaine_framework_go.Service.Sessions
use cocaine_framework_go.Service.Sessions.{Sessions, detach, session_keys}
use cocaine_framework_go.Service.Channel.{
  ServiceResult, Rx, Tx, tree_entry, push, refill, is_empty_type,
}
use cocaine_framework_go.Service.Channel.Moves.{waiting, push-waiting}
use cocaine_framework_go.Service.Client.Quiet.{push_to-linked, deliver-found}
use cocaine_framework_go.Service.Client.{
  Service, pushed, on_data, push_to_all, push_disconnected_error, disconnected_error,
}

abbrev pub result_of : Message → ServiceResult
result_of msg = record { method = msg.msg_type; payload = msg.payload; error = none }

push-done :
    (res : ServiceResult) (rx : Rx) (name : Bytes) (next : StreamDescription)
    → tree_entry res.method rx.rx_tree ≡ done (name, next)
    → (u : Rx) × (push res rx ≡ done (u, is_empty_type (dispatch_type next)))
unfolding push
push-done res rx name next h = (refill (record rx { queue = rx.queue ++ res ∷ [] }), simp (h))

push-panics :
    (res : ServiceResult) (rx : Rx) (p : Panic)
    → tree_entry res.method rx.rx_tree ≡ panic p
    → push res rx ≡ panic p
unfolding push
push-panics res rx p h = simp (h)

-- A message of a session that is attached, with a method that the receiver's tree has, is added
-- at the end of what waits in that session's channel; the other channels stay as they are, and
-- the session of the channel is detached if the method ends the stream.
pub data_routes :
    (s : Service) (msg : Message) (c : ℕ) (rx : Rx) (tx : Tx) (name : Bytes)
    (next : StreamDescription)
    → Sessions.get msg.session s.sessions ≡ some c
    → get_elem? s.channels c ≡ some (rx, tx)
    → tree_entry msg.msg_type rx.rx_tree ≡ done (name, next)
    → (t : Service) × (rx' : Rx) × (on_data msg s ≡ done t)
      × (get_elem? t.channels c ≡ some (rx', tx))
      × (waiting rx' ≡ waiting rx ++ result_of msg ∷ [])
      × ((i : ℕ) → c ≢ i → get_elem? t.channels i ≡ get_elem? s.channels i)
      × (t.sessions
          ≡ (if is_empty_type (dispatch_type next) then detach rx.id s.sessions else s.sessions))
unfolding on_data
data_routes s msg c rx tx name next g f h =
    let (u, q) = push-done (result_of msg) rx name next h in
    let ends = is_empty_type (dispatch_type next) in
    (
      record s {
        channels = set s.channels c (u, tx);
        sessions = if ends then detach rx.id s.sessions else s.sessions;
      },
      u,
      push_to-linked (result_of msg) msg.session c s g
          ∙ deliver-found c (result_of msg) s (rx, tx) f
          ∙ ap (λ m. m >>= pushed c s (rx, tx)) q,
      get_elem?-set_self s.channels c (u, tx) (get_elem?-some_lt s.channels c (rx, tx) f),
      push-waiting (result_of msg) rx u ends q,
      (λ i n. get_elem?-set_ne s.channels c i (u, tx) n),
      refl,
    )

-- The error of a lost connection goes to every attached channel as method 1: if the tree of the
-- first one has no such method, its delivery panics.
pub disconnect_panics :
    (s : Service) (k c : ℕ) (links : List (ℕ × ℕ)) (rx : Rx) (tx : Tx) (p : Panic)
    → s.sessions.links ≡ (k, c) ∷ links
    → get_elem? s.channels c ≡ some (rx, tx)
    → tree_entry 1 rx.rx_tree ≡ panic p
    → push_disconnected_error s ≡ panic p
unfolding push_disconnected_error push_to_all Sessions.get session_keys
disconnect_panics s k c links rx tx p l f h =
    let linked : lookup k s.sessions.links ≡ some c = ground (arith, l) in
    ap (λ ls. push_to_all disconnected_error (keys ls) s) l
    ∙ ap (λ m. m >>= push_to_all disconnected_error (keys links))
        (push_to-linked disconnected_error k c s linked
          ∙ deliver-found c disconnected_error s (rx, tx) f
          ∙ ap (λ m. m >>= pushed c s (rx, tx)) (push-panics disconnected_error rx p h))
