-- ===== src/Worker/State.antt =====
-- cocaine12/workerng.go: the worker's state and its message handlers. A request is an entry of
-- `store`, and the map `sessions` holds its position there, since the handler keeps a request
-- after the worker has deleted it from the map. Handlers run outside of the worker: `started`
-- lists them.
pub mod Invariant
pub mod Handlers
pub mod Routing
pub mod Lifetime
pub mod Starts
pub mod Control
use cocaine_framework_go.Prelude.{
  ℕ, suc, ◌+◌, ◌≡◌, ◌==◌, if◌then◌else◌, Bytes, ℤ, pos, negsuc, Bool, true, false, List, [], ◌∷◌,
  ◌++◌, Option, none, some, length, get_elem?, set,
}
use cocaine_framework_go.Prelude.Maps.{lookup, insert, delete}
use cocaine_framework_go.Errors.{Error, no_event_name}
use cocaine_framework_go.Effects.{
  Outcome, done, panic, blocked, ◌>>=◌, index_out_of_range, nil_dereference,
}
use cocaine_framework_go.Message.{
  Value, text, byte_slice, Message, new_handshake_v1, new_heartbeat_v1,
}
use cocaine_framework_go.Message.Trace.{TraceInfo, get_trace_data}
use cocaine_framework_go.Worker.Dispatch.{ProtocolHandler, V1Protocol, new_v1_protocol, on_message}
use cocaine_framework_go.Worker.Stream
use cocaine_framework_go.Worker.Stream.{Stream, new_request}

-- A time.Timer: it runs, or its tick waits in the channel C. Stop and Reset leave a tick that
-- already waits.
pub record Timer : Type 0 where
  pub running : Bool
  pub fired : Bool

abbrev pub stop_timer : Timer → Timer
stop_timer t = record t { running = false }

abbrev pub reset_timer : Timer → Timer
reset_timer t = record t { running = true }

-- How a select on conn.Write(), conn.IsClosed() and a timeout ends.
pub data WriteChoice : Type 0 where
  accepted conn_closed timed_out : WriteChoice

-- A handler that the worker has started: the event, the session, its request and its trace.
pub record Invocation : Type 0 where
  pub event : Bytes
  pub session : ℕ
  pub request : ℕ
  pub trace : Option TraceInfo

pub record Worker : Type 0 where
  pub id : Bytes
  pub protocol : V1Protocol
  pub sessions : List (ℕ × ℕ)
  pub store : List Stream
  pub started : List Invocation
  pub heartbeat_timer : Timer
  pub disown_timer : Timer
  pub stopped : Bool
  -- calls of tokenManager.Stop and of conn.Close
  pub token_stops : ℕ
  pub conn_closes : ℕ
  -- messages that conn.Write() has accepted from the worker
  pub sent : List Message
  pub has_termination_handler : Bool
  pub stack_signal_enabled : Bool
  pub terminations : ℕ
  -- what the environment will choose at the next select on conn.Write()
  pub next_write : WriteChoice

-- getEventName
unfoldable pub get_event_name : List Value → Outcome (Option Bytes)
get_event_name [] = panic index_out_of_range
get_event_name (text event ∷ rest) = done (some event)
get_event_name (byte_slice event ∷ rest) = done (some event)
get_event_name (_ ∷ rest) = done none

-- Stop
unfoldable pub stop : Worker → Worker
stop w = if w.stopped then w else record w {
  token_stops = suc w.token_stops;
  stopped = true;
  conn_closes = suc w.conn_closes;
}

-- The select that writes a message to the connection.
unfoldable pub send_or_give_up : WriteChoice → Message → Worker → Worker
send_or_give_up accepted msg w = record w { sent = w.sent ++ msg ∷ [] }
send_or_give_up conn_closed msg w = w
send_or_give_up timed_out msg w = w

unfoldable pub on_heartbeat_timeout : Worker → Worker
unfolding send_or_give_up
on_heartbeat_timeout w = send_or_give_up w.next_write new_heartbeat_v1 (record w {
  disown_timer = reset_timer w.disown_timer;
  heartbeat_timer = reset_timer w.heartbeat_timer;
})

unfoldable pub on_disown_timeout : Worker → Worker
unfolding stop
on_disown_timeout w = stop w

-- A method of the request that a session's entry points to.
unfoldable pub update_stream : ℕ → (Stream → Outcome Stream) → Worker → Outcome Worker
update_stream r f w = elim (get_elem? w.store r) [
  | none ↦ panic nil_dereference
  | some s ↦ f s >>= λ s'. done (record w { store = set w.store r s' })
]

unfoldable pub on_choke : Message → Worker → Outcome Worker
unfolding update_stream Stream.close
on_choke msg w = elim (lookup msg.session w.sessions) [
  | none ↦ done w
  | some r ↦ update_stream r Stream.close w >>= λ w'.
      done (record w' { sessions = delete msg.session w'.sessions })
]

unfoldable pub on_chunk : Message → Worker → Outcome Worker
unfolding update_stream Stream.push
on_chunk msg w = elim (lookup msg.session w.sessions) [
  | none ↦ done w
  | some r ↦ update_stream r (Stream.push msg) w
]

unfoldable pub on_error : Message → Worker → Outcome Worker
unfolding update_stream Stream.push
on_error msg w = elim (lookup msg.session w.sessions) [
  | none ↦ done w
  | some r ↦ update_stream r (Stream.push msg) w
]

-- The trace is attached to the handler's context only if getTraceData returns no error.
abbrev pub attached : TraceInfo × Option Error → Option TraceInfo
attached (info, none) = some info
attached (info, some e) = none

unfoldable pub start_handler : Bytes → Message → Worker → Worker
start_handler event msg w = record w {
  store = w.store ++ new_request ∷ [];
  sessions = insert msg.session (length w.store) w.sessions;
  started =
      w.started
      ++ (record {
        event = event;
        session = msg.session;
        request = length w.store;
        trace = attached (get_trace_data msg.headers);
      })
        ∷ [];
}

-- The rest of onInvoke, by the result of getEventName.
abbrev pub invoked : Message → Worker → Option Bytes → Outcome (Worker × Option Error)
invoked msg w none = done (w, some no_event_name)
invoked msg w (some event) = done (start_handler event msg w, none)

unfoldable pub on_invoke : Message → Worker → Outcome (Worker × Option Error)
unfolding get_event_name start_handler
on_invoke msg w = get_event_name msg.payload >>= invoked msg w

unfoldable pub on_heartbeat : Message → Worker → Outcome Worker
on_heartbeat msg w = done (record w { disown_timer = stop_timer w.disown_timer })

-- The termination handler returns or times out; either way the worker goes on.
unfoldable pub call_termination_handler : Worker → Worker
call_termination_handler w =
    if w.has_termination_handler then record w { terminations = suc w.terminations } else w

unfoldable pub on_terminate : Message → Worker → Outcome Worker
unfolding call_termination_handler send_or_give_up stop
on_terminate msg w =
    let called = call_termination_handler w in
    done (stop (send_or_give_up called.next_write msg called))

abbrev pub worker_handler : ProtocolHandler Worker
worker_handler = record {
  on_choke = on_choke;
  on_chunk = on_chunk;
  on_error = on_error;
  on_heartbeat = on_heartbeat;
  on_invoke = on_invoke;
  on_terminate = on_terminate;
}

abbrev pub with_protocol : V1Protocol → Worker × Option Error → Worker × Option Error
with_protocol v (w, e) = (record w { protocol = v }, e)

-- w.dispatcher.onMessage(w, msg)
unfoldable pub receive : Message → Worker → Outcome (Worker × Option Error)
receive msg w =
    let (v, m) = on_message worker_handler w.protocol msg w in m >>= λ r. done (with_protocol v r)

abbrev idle_timer : Timer
idle_timer = record { running = false; fired = false }

-- The worker before the handshake: both timers are made and stopped at once.
abbrev pub fresh_worker : Bytes → WriteChoice → Worker
fresh_worker id choice = record {
  id = id;
  protocol = new_v1_protocol;
  sessions = [];
  store = [];
  started = [];
  heartbeat_timer = idle_timer;
  disown_timer = idle_timer;
  stopped = false;
  token_stops = 0;
  conn_closes = 0;
  sent = [];
  has_termination_handler = false;
  stack_signal_enabled = true;
  terminations = 0;
  next_write = choice;
}

-- sendHandshake; `none` is its error.
send_handshake : WriteChoice → Worker → Option Worker
send_handshake accepted w = some (record w { sent = w.sent ++ new_handshake_v1 w.id ∷ [] })
send_handshake conn_closed w = some w
send_handshake timed_out w = none

abbrev is_v1 : ℤ → Bool
is_v1 (pos n) = n == 1
is_v1 (negsuc n) = false

-- newWorkerNG; `none` is the error for another protocol version, or that of sendHandshake.
unfoldable pub new_worker_ng : Bytes → ℤ → WriteChoice → Option Worker
unfolding send_handshake
new_worker_ng id proto_version choice =
    if is_v1 proto_version then send_handshake choice (fresh_worker id choice) else none
