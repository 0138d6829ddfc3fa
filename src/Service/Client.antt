-- ===== src/Service/Client.antt =====
-- cocaine12/service.go: type Service. Its channels live in a store, since a client keeps a channel
-- after its session is detached. The socket is what Send was given and whether IsClosed() is
-- closed; resolving and connecting (serviceResolve, serviceCreateIO) end as an event says. The
-- mutexes make each call one step; tracing only adds headers, which the call is given.
pub mod Quiet
pub mod Opened
pub mod Order
pub mod Close
pub mod Routing
use cocaine_framework_go.Prelude.{
  ℕ, suc, if◌then◌else◌, not, ◌&&◌, ◌==◌, Bytes, bytes, ℤ, Bool, true, false, List, [], ◌∷◌, ◌++◌,
  Option, none, some, length, get_elem?, set,
}
use cocaine_framework_go.Prelude.Maps.{lookup}
use cocaine_framework_go.Errors.{Error, Result, ok, err}
use cocaine_framework_go.Effects.{
  Outcome, done, panic, blocked, ◌>>=◌, nil_dereference, close_of_closed_channel,
}
use cocaine_framework_go.Message.{Value, Message}
use cocaine_framework_go.Service.Dispatch.{StreamDescription, nil, DispatchItem, api_method}
use cocaine_framework_go.Service.Sessions
use cocaine_framework_go.Service.Sessions.{Sessions, new_sessions, attach, detach, session_keys}
use cocaine_framework_go.Service.Channel
use cocaine_framework_go.Service.Channel.{ServiceResult, Rx, Tx, GetChoice, push}

pub record Service : Type 0 where
  pub api : List (ℕ × DispatchItem)
  pub sessions : Sessions
  pub channels : List (Rx × Tx)
  -- what was handed to socketIO.Send
  pub sent : List Message
  -- socketIO.IsClosed() is closed
  pub is_closed : Bool
  -- the channel `stop` is closed, and with it the socket: close() does both
  pub stop_closed : Bool
  pub epoch : ℕ

abbrev pub new_service : List (ℕ × DispatchItem) → Service
new_service api = record {
  api = api;
  sessions = new_sessions;
  channels = [];
  sent = [];
  is_closed = false;
  stop_closed = false;
  epoch = 0;
}

-- API[methodNum]: the zero dispatchItem if it is not there.
abbrev or_zero : Option DispatchItem → DispatchItem
or_zero none = record { name = []; downstream = nil; upstream = nil }
or_zero (some item) = item

abbrev pub new_channel : DispatchItem → ℕ → List Value → Rx × Tx
new_channel item id headers = (
  record { push_buffer = none; queue = []; rx_tree = item.upstream; id = id; done = false },
  record { tx_tree = item.downstream; id = id; done = false; headers = headers },
)

unfoldable pub send_msg : Message → Service → Service
send_msg msg s = record s { sent = s.sent ++ msg ∷ [] }

-- Service.call once the method is known: the service and the position of the new channel.
unfoldable pub open_channel : ℕ → List Value → List Value → Service → Service × ℕ
unfolding send_msg
open_channel method args headers s =
    let (sessions, id) = attach (length s.channels) s.sessions in
    (
      send_msg (record { session = id; msg_type = method; payload = args; headers = headers })
          (record s {
            sessions = sessions;
            channels = s.channels ++ new_channel (or_zero (lookup method s.api)) id headers ∷ [];
          }),
      length s.channels,
    )

unfoldable pub service_call : Bytes → List Value → List Value → Service → Service × Result ℕ
unfolding open_channel
service_call name args headers s = elim (api_method name s.api) [
  | err e ↦ (s, err e)
  | ok method ↦ let (t, c) = open_channel method args headers s in (t, ok c)
]

-- ch.push(res) for the channel at `c`; push detaches the session at the end of the stream.
abbrev pub pushed : ℕ → Service → Rx × Tx → Rx × Bool → Outcome Service
pushed c s (old, tx) (rx, ends) = done (record s {
  channels = set s.channels c (rx, tx);
  sessions = if ends then detach old.id s.sessions else s.sessions;
})

unfoldable pub deliver : ℕ → ServiceResult → Service → Outcome Service
deliver c res s = elim (get_elem? s.channels c) [
  | none ↦ panic nil_dereference
  | some ch ↦ push res ch.0 >>= pushed c s ch
]

unfoldable pub push_to : ServiceResult → ℕ → Service → Outcome Service
push_to res session s = elim (Sessions.get session s.sessions) [
  | none ↦ done s
  | some c ↦ deliver c res s
]

-- One message in loop.
unfoldable pub on_data : Message → Service → Outcome Service
on_data msg s =
    push_to (record { method = msg.msg_type; payload = msg.payload; error = none }) msg.session s

abbrev pub disconnected_error : ServiceResult
disconnected_error = record {
  method = 1;
  payload = [];
  error = some (Error.service (ℤ.negsuc 99) (bytes "Disconnected"));
}

unfoldable pub push_to_all : ServiceResult → List ℕ → Service → Outcome Service
push_to_all res [] s = done s
push_to_all res (key ∷ keys) s = push_to res key s >>= push_to_all res keys

unfoldable pub push_disconnected_error : Service → Outcome Service
push_disconnected_error s = push_to_all disconnected_error (session_keys s.sessions) s

-- The end of loop, for the epoch that it was started in.
unfoldable pub loop_end : ℕ → Service → Outcome Service
loop_end epoch s = if epoch == s.epoch then push_disconnected_error s else done s

unfoldable pub close : Service → Outcome Service
close s =
    if s.stop_closed
    then panic close_of_closed_channel
    else done (record s { stop_closed = true; is_closed = true })

abbrev pub reopened : Service → Service
reopened s = record s { stop_closed = false; is_closed = false; epoch = suc s.epoch }

-- Reconnect; `resolved` is the error of resolving or connecting, if any.
abbrev pub replace_socket : Option Error → Service → Outcome (Service × Option Error)
replace_socket (some e) s = done (s, some e)
replace_socket none s = close s >>= λ t. done (reopened t, none)

unfoldable pub reconnect : Bool → Option Error → Service → Outcome (Service × Option Error)
reconnect force resolved s =
    if not force && not s.is_closed
    then done (s, none)
    else push_disconnected_error s >>= replace_socket resolved

-- Call
abbrev pub call_after :
    Bytes → List Value → List Value → Service × Option Error → Outcome (Service × Result ℕ)
call_after name args headers (s, some e) = done (s, err e)
call_after name args headers (s, none) = done (service_call name args headers s)

unfoldable pub call :
    Bytes → List Value → List Value → Option Error → Service → Outcome (Service × Result ℕ)
call name args headers resolved s =
    if s.is_closed
    then reconnect false resolved s >>= call_after name args headers
    else done (service_call name args headers s)

-- ch.Call and ch.Get of the channel at `c`.
abbrev pub sent_by : ℕ → Rx → Service → Tx × List Message × Option Error → Outcome Service
sent_by c rx s (tx, msgs, e) =
    done (record s { channels = set s.channels c (rx, tx); sent = s.sent ++ msgs })

unfoldable pub channel_call : ℕ → Bytes → List Value → Service → Outcome Service
channel_call c name args s = elim (get_elem? s.channels c) [
  | none ↦ blocked
  | some ch ↦ Channel.call name args ch.1 >>= sent_by c ch.0 s
]

abbrev pub received_by :
    ℕ → Tx → Service → Rx × Option ServiceResult × Option Error → Outcome Service
received_by c tx s (rx, res, e) = done (record s { channels = set s.channels c (rx, tx) })

-- What happens to a service: calls of its client, messages, the loss of the connection, and the
-- end of a loop.
pub data ServiceEvent : Type 0 where
  calls : Bytes → List Value → List Value → Option Error → ServiceEvent
  channel_calls : ℕ → Bytes → List Value → ServiceEvent
  channel_gets : ℕ → GetChoice → ServiceEvent
  data_comes : Message → ServiceEvent
  connection_lost : ServiceEvent
  loop_ends : ℕ → ServiceEvent
  reconnects : Bool → Option Error → ServiceEvent
  closes : ServiceEvent

abbrev only {ℓ} : {A : Type ℓ} → Outcome (Service × A) → Outcome Service
only m = m >>= λ r. done r.0

module _ (convert : List Value → Result (ℤ × ℤ × Bytes)) where
  unfoldable pub channel_get : ℕ → GetChoice → Service → Outcome Service
  channel_get c choice s = elim (get_elem? s.channels c) [
    | none ↦ blocked
    | some ch ↦ Channel.get convert choice ch.0 >>= received_by c ch.1 s
  ]

  unfoldable pub service_step : ServiceEvent → Service → Outcome Service
  service_step (calls name args headers resolved) s = only (call name args headers resolved s)
  service_step (channel_calls c name args) s = channel_call c name args s
  service_step (channel_gets c choice) s = channel_get c choice s
  service_step (data_comes msg) s = on_data msg s
  service_step connection_lost s = done (record s { is_closed = true })
  service_step (loop_ends epoch) s = loop_end epoch s
  service_step (reconnects force resolved) s = only (reconnect force resolved s)
  service_step closes s = close s

  unfoldable pub service_run : List ServiceEvent → Service → Outcome Service
  service_run [] s = done s
  service_run (e ∷ es) s = service_step e s >>= service_run es
