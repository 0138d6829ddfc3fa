-- ===== src/Tests/Workers.antt =====
-- The worker, its requests and its responses (cocaine12/workerng.go, wprotov1.go, handler.go).
use cocaine_framework_go.Prelude.{
  ℕ, Bytes, some, ◌≡◌, ◌≤◌, refl, true, false, bytes, List, [], ◌∷◌, none, arith, Option,
}
use cocaine_framework_go.Prelude.Maps.{lookup}
use cocaine_framework_go.Errors.{Error}
use cocaine_framework_go.Effects.{done}
use cocaine_framework_go.Message.{Message, new_invoke_v1, new_chunk_v1, new_choke_v1}
use cocaine_framework_go.Message.Trace.{get_trace_data}
use cocaine_framework_go.Worker.Dispatch.{on_message}
use cocaine_framework_go.Worker.Stream.{
  Stream, StreamEvent, new_request, pushes, closes, hands, notices, stream_run, stream_step,
}
use cocaine_framework_go.Worker.Stream.Order.{pushed, stream_complete}
use cocaine_framework_go.Worker.Stream.Drain.{drain_ends, AllInternal}
use cocaine_framework_go.Worker.Events.{EventHandler}
use cocaine_framework_go.Worker.Response.{Act, writes, serve}
use cocaine_framework_go.Worker.Response.Terminal.{serve_ends_once}
use cocaine_framework_go.Worker.State.{Worker, accepted, fresh_worker, receive, on_invoke, on_chunk}
use cocaine_framework_go.Worker.State.Invariant.{HasSessions, fresh-HasSessions, invoke-Sessions}
use cocaine_framework_go.Worker.State.Handlers.{receive-HasSessions}
use cocaine_framework_go.Worker.State.Lifetime.{receive_all, ended_stays_ended}

abbrev first_chunk : Message
first_chunk = record { session = 2; msg_type = 0; payload = []; headers = [] }

abbrev history : List StreamEvent
history = pushes first_chunk ∷ closes ∷ hands ∷ notices ∷ []

abbrev drained : Stream
drained = record { pending = []; closed = true; seen = true; ended = true }

history_drains : stream_run history new_request ≡ done (drained, first_chunk ∷ [])
unfolding stream_run stream_step
history_drains = refl

stream_complete_example : (first_chunk ∷ [] ≡ pushed history) × (drained.closed ≡ true)
stream_complete_example = stream_complete history drained (first_chunk ∷ []) history_drains refl

abbrev closing : Stream
closing = record { pending = first_chunk ∷ []; closed = true; seen = false; ended = false }

closing_drains : stream_run (hands ∷ notices ∷ []) closing ≡ done (drained, first_chunk ∷ [])
unfolding stream_run stream_step
closing_drains = refl

drain_ends_example :
    (es : List StreamEvent) × AllInternal es
    × (stream_run es closing ≡ done (drained, first_chunk ∷ []))
drain_ends_example = drain_ends (first_chunk ∷ [])

serve_ends_once_example :
    serve (bytes "e") (writes (bytes "a") ∷ Act.closes ∷ writes (bytes "b") ∷ []) none [] 2
    ≡ new_chunk_v1 2 (bytes "a") ∷ new_choke_v1 2 ∷ []
serve_ends_once_example =
    serve_ends_once (bytes "e") (writes (bytes "a") ∷ Act.closes ∷ writes (bytes "b") ∷ []) none []
      2

abbrev fresh : Worker
fresh = fresh_worker (bytes "id") accepted

abbrev serving : Worker
serving = record fresh {
  protocol = record { max_session = 2 };
  sessions = (2, 0) ∷ [];
  store = new_request ∷ [];
}

serving-HasSessions : HasSessions serving
serving-HasSessions = invoke-Sessions 1 [] [] 2 (omega arith) (fresh-HasSessions [] accepted)

receive-HasSessions_example :
    (u : Worker) × (e : Option Error) × (receive (new_invoke_v1 2 (bytes "ping")) fresh
      ≡ done (u, e))
    × HasSessions u
unfolding new_invoke_v1
receive-HasSessions_example =
    receive-HasSessions fresh (new_invoke_v1 2 (bytes "ping"))
      (fresh-HasSessions (bytes "id") accepted) (λ i e. cc)

abbrev late : Worker
late = record fresh { protocol = record { max_session = 5 } }

late_ignores : receive_all (first_chunk ∷ []) late ≡ done late
unfolding receive_all receive on_message on_chunk
late_ignores = refl

ended_stays_ended_example : (2 ≤ late.protocol.max_session) × (lookup 2 late.sessions ≡ none)
ended_stays_ended_example =
    ended_stays_ended 2 (first_chunk ∷ []) late late (omega arith) refl late_ignores

abbrev serving_first : Worker
serving_first = record serving {
  started = record { event = bytes "ping"; session = 2; request = 0; trace = none } ∷ [];
}

first_start : receive_all (new_invoke_v1 2 (bytes "ping") ∷ []) fresh ≡ done serving_first
unfolding receive_all receive on_message on_invoke new_invoke_v1 get_trace_data
first_start = refl

abbrev ping_handler : EventHandler ℕ
ping_handler n = writes (bytes "pong") ∷ []

abbrev registrations : List (Bytes × Option (EventHandler ℕ))
registrations = (bytes "ping", none) ∷ (bytes "ping", some ping_handler) ∷ (bytes "http", none) ∷ []
