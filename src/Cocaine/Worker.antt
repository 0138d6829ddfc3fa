-- ===== src/Cocaine/Worker.antt =====
-- cocaine/worker.go: type Worker, and the rounds of the select of its Loop. The requests and the
-- responses live in stores, since a handler keeps its own after the worker has forgotten the
-- session. A round says which case is taken; os.Exit is a result of it.
pub mod Sessions
use cocaine_framework_go.Prelude.{
  ℕ, if◌then◌else◌, Bytes, bytes_eq, ℤ, pos, to_uint64, Bool, true, false, ◌||◌, List, [], ◌∷◌,
  ◌++◌, Option, none, some, length, get_elem?, set,
}
use cocaine_framework_go.Prelude.Maps.{lookup, insert, delete}
use cocaine_framework_go.Effects.{Outcome, done, panic, blocked, ◌>>=◌, nil_dereference}
use cocaine_framework_go.Cocaine.Message.{
  MessageInterface, handshake_struct, heartbeat, terminate_struct, invoke, chunk, choke, error_msg,
  service_method, info, type_handshake, type_heartbeat, Uuids,
}
use cocaine_framework_go.Cocaine.Message.Feed.{
  Codec, StreamUnpacker, new_stream_unpacker, feed, pack_msg,
}
use cocaine_framework_go.Cocaine.Relay.{
  Relay, new_request, request_push, request_close, relay_take, Response, new_response,
}
use cocaine_framework_go.Worker.State.{Timer, stop_timer, reset_timer}

-- A handler that was started: the event, the places of its request and its response (they are the
-- same in both stores), and whether the event is bound or the fallback runs.
pub record Started : Type 0 where
  pub event : Bytes
  pub place : ℕ
  pub is_bound : Bool

pub record Worker : Type 0 where
  pub unpacker : StreamUnpacker
  pub uuid : Bytes
  pub heartbeat_timer : Timer
  pub disown_timer : Timer
  -- a session is kept as its two's complement
  pub sessions : List (ℕ × ℕ)
  pub requests : List Relay
  pub responses : List Response
  -- the events of `bind`
  pub bound : List Bytes
  pub started : List Started
  -- what was sent to worker.Write()
  pub written : List Bytes

pub data RoundExit : Type 0 where
  goes_on exits : RoundExit

abbrev is_in : Bytes → List Bytes → Bool
is_in name [] = false
is_in name (b ∷ bs) = bytes_eq b name || is_in name bs

unfoldable pub write_packed : Bytes → Worker → Worker
write_packed packed w = record w { written = w.written ++ packed ∷ [] }

module _ (c : Codec) (us : Uuids) where
  unfoldable pub send_heartbeat : Worker → Worker
  unfolding write_packed pack_msg
  send_heartbeat w =
      let w' = write_packed (pack_msg c us (heartbeat (info type_heartbeat (pos 0)))) w in
      record w' {
        disown_timer = reset_timer w'.disown_timer;
        heartbeat_timer = reset_timer w'.heartbeat_timer;
      }

  unfoldable pub send_handshake : Worker → Worker
  unfolding write_packed pack_msg
  send_handshake w =
      write_packed (pack_msg c us (handshake_struct (info type_handshake (pos 0)) w.uuid)) w

  -- NewWorker, once the socket and the logger are made; `bound` belongs to Loop.
  unfoldable pub new_worker : Bytes → List Bytes → Worker
  unfolding send_heartbeat send_handshake
  new_worker uuid bound = send_heartbeat (
      send_handshake (record {
        unpacker = new_stream_unpacker;
        uuid = uuid;
        heartbeat_timer = record { running = true; fired = false };
        disown_timer = stop_timer (record { running = true; fired = false });
        sessions = [];
        requests = [];
        responses = [];
        bound = bound;
        started = [];
        written = [];
      }))

-- What is done to the request at a place.
abbrev pub on_request : (Relay → Outcome Relay) → ℕ → Worker → Outcome Worker
on_request f i w = elim (get_elem? w.requests i) [
  | none ↦ panic nil_dereference
  | some r ↦ f r >>= λ r'. done (record w { requests = set w.requests i r' })
]

-- worker.sessions[id].push(data): a method of a nil *Request, if the session is not there.
unfoldable pub worker_chunk : ℕ → Bytes → Worker → Outcome Worker
unfolding request_push
worker_chunk id content w = elim (lookup id w.sessions) [
  | none ↦ panic nil_dereference
  | some i ↦ on_request (request_push content) i w
]

-- worker.sessions[id].close(); delete
unfoldable pub worker_choke : ℕ → Worker → Outcome Worker
unfolding request_close
worker_choke id w = elim (lookup id w.sessions) [
  | none ↦ panic nil_dereference
  | some i ↦
      on_request request_close i w >>= λ t. done (record t { sessions = delete id t.sessions })
]

unfoldable pub worker_invoke : ℤ → Bytes → Worker → Worker
worker_invoke session event w = record w {
  requests = w.requests ++ new_request ∷ [];
  responses = w.responses ++ new_response session ∷ [];
  sessions = insert (to_uint64 session) (length w.requests) w.sessions;
  started =
      w.started
      ++ record { event = event; place = length w.requests; is_bound = is_in event w.bound } ∷ [];
}

-- The switch on a message.
unfoldable pub worker_message : MessageInterface → Worker → Outcome (Worker × RoundExit)
unfolding worker_chunk worker_choke worker_invoke
worker_message (chunk i content) w =
    worker_chunk (to_uint64 i.channel) content w >>= λ t. done (t, goes_on)
worker_message (choke i) w = worker_choke (to_uint64 i.channel) w >>= λ t. done (t, goes_on)
worker_message (invoke i event) w = done (worker_invoke i.channel event w, goes_on)
worker_message (heartbeat i) w =
    done (record w { disown_timer = stop_timer w.disown_timer }, goes_on)
worker_message (terminate_struct i reason message) w = done (w, exits)
worker_message (handshake_struct i u) w = done (w, goes_on)
worker_message (error_msg i code message) w = done (w, goes_on)
worker_message (service_method i content) w = done (w, goes_on)

-- `for _, rawmsg := range msgs`
unfoldable pub worker_messages : List MessageInterface → Worker → Outcome (Worker × RoundExit)
unfolding worker_message
worker_messages [] w = done (w, goes_on)
worker_messages (msg ∷ msgs) w = worker_message msg w >>= λ (t, exit). elim exit [
  | goes_on ↦ worker_messages msgs t
  | exits ↦ done (t, exits)
]

-- A round of Loop: an answer of the socket, a tick of a timer, a message of the response at a
-- place. Beside them a timer expires, a handler reads.
pub data WorkerRound : Type 0 where
  answer : Bytes → WorkerRound
  heartbeat_due disown_due : WorkerRound
  outcoming : ℕ → WorkerRound

-- `case outcoming := <-worker.from_handlers`, with the goroutine of a response.
unfoldable pub worker_outcoming : ℕ → Worker → Outcome Worker
unfolding relay_take write_packed
worker_outcoming i w = elim (get_elem? w.responses i) [
  | none ↦ blocked
  | some r ↦ relay_take r.relay >>= λ (relay, first). done (record w {
    responses = set w.responses i (record r { relay = relay });
    written = w.written ++ first;
  })
]

unfoldable pub worker_round : Codec → Uuids → WorkerRound → Worker → Outcome (Worker × RoundExit)
unfolding feed worker_messages send_heartbeat worker_outcoming
worker_round c us (answer content) w =
    feed c us content w.unpacker >>= λ (u, msgs). worker_messages msgs (record w { unpacker = u })
worker_round c us heartbeat_due w =
    if w.heartbeat_timer.fired
    then done (
      send_heartbeat c us
          (record w { heartbeat_timer = record { running = false; fired = false } }),
      goes_on,
    )
    else blocked
worker_round c us disown_due w = if w.disown_timer.fired then done (w, exits) else blocked
worker_round c us (outcoming i) w = worker_outcoming i w >>= λ t. done (t, goes_on)
