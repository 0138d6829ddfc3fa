-- ===== src/Tests/Rounds.antt =====
-- The worker and the sockets of the older protocol (cocaine/worker.go, cocaine/asocket.go).
use cocaine_framework_go.Prelude.{bytes, pos, true, false, List, [], ◌∷◌, ◌≡◌, refl, if◌then◌else◌}
use cocaine_framework_go.Effects.{done, blocked}
use cocaine_framework_go.Cocaine.Message.{MessageInterface, chunk, choke, invoke, heartbeat, info}
use cocaine_framework_go.Cocaine.Relay.{
  Response, ResponseOp, gives, quits, ResponseEvent, does, worker_takes, response_run,
  response_step, request_push, request_close, relay_take,
}
use cocaine_framework_go.Cocaine.Relay.Order.{given, response_complete}
use cocaine_framework_go.Cocaine.Worker.{Worker, goes_on, worker_messages, new_worker}
use cocaine_framework_go.Cocaine.Worker.Sessions.{HasRequests, follows, worker_messages-returns}
use cocaine_framework_go.Cocaine.Socket.{
  AsyncRwSocket, Outgoing, new_async_rw_socket, new_outgoing, blackhole, returned, buff_accept,
  buff_take, close_once,
}
use cocaine_framework_go.Cocaine.Socket.Steps.{
  sends, writes, RwEvent, reads, receives, WEvent, rw_run, w_run,
}
use cocaine_framework_go.Cocaine.Socket.Order.{rw_sent, rw_read, rw_order, w_sent, w_order}
use cocaine_framework_go.Tests.Streams.{small_codec, plain_uuids}

-- A handler writes and closes its response, which then has ended.
abbrev served : List ResponseEvent
served =
    does (gives (1 ∷ [])) ∷ does (gives (2 ∷ [])) ∷ worker_takes ∷ does quits ∷ worker_takes ∷ []

abbrev ended_response : Response
ended_response = record {
  session = pos 5;
  relay = record { pending = []; quit = true; ended = true };
}

response_complete_example :
    ((1 ∷ []) ∷ (2 ∷ []) ∷ [] ≡ given served)
    × (true ≡ true
        → ((1 ∷ []) ∷ (2 ∷ []) ∷ [] ≡ given served)
          × ((op : ResponseOp)
              → response_step (does op) (ended_response, (1 ∷ []) ∷ (2 ∷ []) ∷ []) ≡ blocked))
unfolding response_run request_push request_close relay_take
response_complete_example =
    response_complete (pos 5) served ended_response ((1 ∷ []) ∷ (2 ∷ []) ∷ []) refl

abbrev idle_worker : Worker
unfolding new_worker
idle_worker = new_worker small_codec plain_uuids [] (bytes "ping" ∷ [])

abbrev dialogue : List MessageInterface
dialogue =
    invoke (info (pos 3) (pos 5)) (bytes "ping")
    ∷ heartbeat (info (pos 1) (pos 0))
    ∷ chunk (info (pos 4) (pos 5)) (9 ∷ [])
    ∷ choke (info (pos 6) (pos 5))
    ∷ []

idle-HasRequests : HasRequests idle_worker
unfolding new_worker
idle-HasRequests = record { live = λ k i e. cc; apart = λ j k i e f. cc }

worker_messages-returns_example :
    (t : Worker) × (worker_messages dialogue idle_worker ≡ done (t, goes_on)) × HasRequests t
unfolding follows
worker_messages-returns_example =
    worker_messages-returns dialogue [] idle_worker idle-HasRequests (λ k e. cc) refl

-- A message is written, a Write fails, and a piece arrives.
abbrev traffic : List RwEvent
traffic =
    RwEvent.goes_out (sends (1 ∷ []))
    ∷ RwEvent.goes_out (writes true)
    ∷ RwEvent.goes_out (sends (2 ∷ []))
    ∷ RwEvent.goes_out (writes false)
    ∷ reads (7 ∷ []) false
    ∷ receives
    ∷ []

abbrev after_error : Outgoing
after_error = record new_outgoing {
  closed = true;
  conn_closes = 1;
  writer = blackhole;
  wire = (1 ∷ []) ∷ [];
  dropped = (2 ∷ []) ∷ [];
}

abbrev after_traffic : AsyncRwSocket
after_traffic = record new_async_rw_socket { out = after_error; received = (7 ∷ []) ∷ [] }

rw_order_example :
    ((1 ∷ []) ∷ (2 ∷ []) ∷ [] ≡ rw_sent traffic)
    × (true ≡ false → after_error.dropped ≡ [])
    × ((7 ∷ []) ∷ [] ≡ rw_read traffic)
    × (after_error.conn_closes ≡ (if true then 1 else 0))
unfolding rw_run buff_accept buff_take close_once
rw_order_example = rw_order traffic after_traffic refl

abbrev w_traffic : List WEvent
w_traffic =
    WEvent.goes_out (sends (1 ∷ []))
    ∷ WEvent.goes_out (writes false)
    ∷ WEvent.goes_out (sends (2 ∷ []))
    ∷ []

abbrev w_broken : Outgoing
w_broken = record new_outgoing {
  client_to_sock = record (new_outgoing.client_to_sock) { pending = (2 ∷ []) ∷ [] };
  closed = true;
  conn_closes = 1;
  writer = returned;
  dropped = (1 ∷ []) ∷ [];
}

w_order_example :
    ((1 ∷ []) ∷ (2 ∷ []) ∷ [] ≡ w_sent w_traffic)
    × (true ≡ false → w_broken.dropped ≡ [])
    × (after_error.conn_closes ≡ (if true then 1 else 0))
unfolding w_run buff_accept buff_take close_once
w_order_example = w_order w_traffic w_broken refl
